-- ===== src/Verification/Rewards.antt =====
-- verification/ternary-reward.ts but for its writes, with the two reads and the critique's own table and
-- predicates of verification/cross-family-critique.ts. A read throws where its rows are none.
use threadwork.Prelude.{
  ℕ, String, Bool, true, false, not, ◌&&◌, Option, none, some, List, [], ◌∷◌, ◌==◌, ltb, str_eq,
  any, find, keep, length, if◌then◌else◌, or_else, is_some, number_is,
}
use threadwork.Blackboard.{Flags, given, same_flag}
use threadwork.Verification.Failures.{
  FailureSeverity, low, medium, high, critical, other_severity, ClassificationQuad,
  is_cross_family_review_mandatory,
}
use threadwork.Verification.Critics.{
  CrossFamilyVerdict, concur, dissent, block, insufficient_same_family, unknown_verdict,
  other_verdict, ModelFamily,
}

pub data TernaryReward : Type 0 where
  negative neutral positive : TernaryReward

abbrev pub same_verdict : CrossFamilyVerdict → CrossFamilyVerdict → Bool
same_verdict concur concur = true
same_verdict dissent dissent = true
same_verdict block block = true
same_verdict insufficient_same_family insufficient_same_family = true
same_verdict unknown_verdict unknown_verdict = true
same_verdict (other_verdict s) (other_verdict t) = str_eq s t
same_verdict _ _ = false

abbrev pub same_severity : FailureSeverity → FailureSeverity → Bool
same_severity low low = true
same_severity medium medium = true
same_severity high high = true
same_severity critical critical = true
same_severity (other_severity s) (other_severity t) = str_eq s t
same_severity _ _ = false

-- Equality of values that may be null.
abbrev pub same_or_null {ℓ} : {A : Type ℓ} → (A → A → Bool) → Option A → Option A → Bool
same_or_null same none none = true
same_or_null same none (some b) = false
same_or_null same (some a) none = false
same_or_null same (some a) (some b) = same a b

-- A row of the decision table. A clause that is none matches anything.
pub record DecisionRow : Type 0 where
  pub row : ℕ
  pub reward : TernaryReward
  pub cross_family_verdict : Option (List (Option CrossFamilyVerdict))
  pub failure_severity : Option (List (Option FailureSeverity))
  pub failure_signal_available : Option (List Bool)

abbrev row_of :
    ℕ
    → TernaryReward
    → Option (List (Option CrossFamilyVerdict))
    → Option (List (Option FailureSeverity))
    → Option (List Bool)
    → DecisionRow
row_of n reward verdicts severities availables = record {
  row = n;
  reward = reward;
  cross_family_verdict = verdicts;
  failure_severity = severities;
  failure_signal_available = availables;
}

abbrev pub decision_table : List DecisionRow
decision_table =
    row_of 1 negative (some (some block ∷ [])) none none
    ∷ row_of 2 negative none (some (some critical ∷ some high ∷ [])) none
    ∷ row_of 3 positive (some (some concur ∷ [])) (some (none ∷ some low ∷ [])) (some (true ∷ []))
    ∷ row_of 4 neutral (some (some dissent ∷ [])) none none
    ∷ row_of 5 neutral none none none
    ∷ []

pub record TernaryRewardSignal : Type 0 where
  pub cross_family_verdict : Option CrossFamilyVerdict
  pub failure_severity : Option FailureSeverity
  pub failure_signal_available : Bool

unfoldable pub row_matches : DecisionRow → TernaryRewardSignal → Bool
row_matches r s =
    given r.cross_family_verdict (any (λ v. same_or_null same_verdict v s.cross_family_verdict))
    && given r.failure_severity (any (λ v. same_or_null same_severity v s.failure_severity))
    && given r.failure_signal_available (any (λ b. same_flag b s.failure_signal_available))

abbrev pub reward_of : Option DecisionRow → TernaryReward
reward_of none = neutral
reward_of (some r) = r.reward

unfoldable pub assign_ternary_reward : TernaryRewardSignal → TernaryReward
unfolding row_matches
assign_ternary_reward s = reward_of (find (λ r. row_matches r s) decision_table)

pub record CritiqueRow : Type 0 where
  pub id : ℕ
  pub decision_id : ℕ
  pub producer_family : ModelFamily
  pub critic_family : ModelFamily
  pub is_cross_family : Bool
  pub verdict : CrossFamilyVerdict

pub record ClassificationRow : Type 0 where
  pub id : ℕ
  pub task_id : Option ℕ
  pub quad : ClassificationQuad

unfoldable pub aggregate_cross_family_verdict : List CritiqueRow → Option CrossFamilyVerdict
aggregate_cross_family_verdict critiques =
    let considered = keep (λ (c : CritiqueRow). c.is_cross_family) critiques in
    let has =
      λ (v : CrossFamilyVerdict). any (λ (c : CritiqueRow). same_verdict c.verdict v) considered in
    if length considered == 0
    then none
    else if has block
    then some block
    else if has dissent
    then some dissent
    else if has concur
    then some concur
    else if has insufficient_same_family
    then some insufficient_same_family
    else some unknown_verdict

-- An unrecognized severity has no rank: it is never above another.
abbrev pub severity_rank : FailureSeverity → ℕ
severity_rank critical = 4
severity_rank high = 3
severity_rank medium = 2
severity_rank low = 1
severity_rank (other_severity text) = 0

abbrev pub rank_of : Option FailureSeverity → ℕ
rank_of none = 0
rank_of (some s) = severity_rank s

unfoldable pub worst_from : Option FailureSeverity → List ClassificationRow → Option FailureSeverity
worst_from worst [] = worst
worst_from worst (c ∷ later) =
    worst_from
      (if ltb (rank_of worst) (severity_rank c.quad.severity) then some c.quad.severity else worst)
      later

unfoldable pub worst_mandatory_failure_severity : List ClassificationRow → Option FailureSeverity
unfolding worst_from
worst_mandatory_failure_severity classifications = worst_from none classifications

pub record RewardRow : Type 0 where
  pub id : ℕ
  pub decision_id : ℕ
  pub task_id : Option ℕ
  pub signal : TernaryRewardSignal
  pub reward : TernaryReward

-- The tables. A table that cannot be read is none.
pub record VerificationDb : Type 0 where
  pub flags : Flags
  pub decisions : List (ℕ × Option ℕ)
  pub critiques : Option (List CritiqueRow)
  pub classifications : Option (List ClassificationRow)
  pub rewards : List RewardRow
  pub next_reward_id : ℕ
  pub audit_log : List (String × Option ℕ)

abbrev pub kept_rows {ℓ} : {A : Type ℓ} → (A → Bool) → Option (List A) → Option (List A)
kept_rows p none = none
kept_rows p (some rows) = some (keep p rows)

unfoldable pub critiques_of : ℕ → VerificationDb → Option (List CritiqueRow)
critiques_of decision_id db =
    kept_rows (λ (c : CritiqueRow). c.decision_id == decision_id) db.critiques

unfoldable pub classifications_of : ℕ → VerificationDb → Option (List ClassificationRow)
classifications_of task_id db =
    kept_rows (λ (c : ClassificationRow). number_is c.task_id task_id) db.classifications

-- A read that throws leaves the verdict out.
abbrev pub verdict_read : Option (List CritiqueRow) → Option CrossFamilyVerdict
verdict_read none = none
verdict_read (some rows) = aggregate_cross_family_verdict rows

-- The severity, and whether it is known.
abbrev pub severity_read : Option (List ClassificationRow) → Option FailureSeverity × Bool
severity_read none = (none, false)
severity_read (some rows) = (worst_mandatory_failure_severity rows, true)

-- The failures of a decision with a task; without one nothing is read.
unfoldable pub failures_of : Option ℕ → VerificationDb → Option (List ClassificationRow)
unfolding classifications_of
failures_of none db = none
failures_of (some task_id) db = classifications_of task_id db

unfoldable pub resolve_ternary_reward_signal : VerificationDb → ℕ → Option ℕ → TernaryRewardSignal
unfolding critiques_of failures_of aggregate_cross_family_verdict worst_mandatory_failure_severity
resolve_ternary_reward_signal db decision_id task_id = record {
  cross_family_verdict = verdict_read (critiques_of decision_id db);
  failure_severity = (severity_read (failures_of task_id db)).0;
  failure_signal_available = (severity_read (failures_of task_id db)).1;
}

unfoldable pub has_ternary_reward : ℕ → VerificationDb → Bool
has_ternary_reward decision_id db = any (λ (r : RewardRow). r.decision_id == decision_id) db.rewards

abbrev pub decision_row : ℕ → VerificationDb → Option (ℕ × Option ℕ)
decision_row decision_id db = find (λ (d : ℕ × Option ℕ). d.0 == decision_id) db.decisions

unfoldable pub has_cross_family_critique : ℕ → VerificationDb → Bool
has_cross_family_critique decision_id db =
    is_some (decision_row decision_id db)
    && any (λ (c : CritiqueRow). (c.decision_id == decision_id) && c.is_cross_family)
        (or_else db.critiques [])

-- A decision without a task, and a read that throws, ask for no review.
abbrev pub mandatory_of : Option (ℕ × Option ℕ) → VerificationDb → List ClassificationRow
mandatory_of none db = []
mandatory_of (some (id, none)) db = []
mandatory_of (some (id, some task_id)) db =
    keep (λ (c : ClassificationRow). is_cross_family_review_mandatory c.quad)
      (or_else (classifications_of task_id db) [])

unfoldable pub requires_cross_family_review : ℕ → VerificationDb → Bool
unfolding classifications_of has_cross_family_critique
requires_cross_family_review decision_id db =
    if length (mandatory_of (decision_row decision_id db) db) == 0
    then false
    else not (has_cross_family_critique decision_id db)
