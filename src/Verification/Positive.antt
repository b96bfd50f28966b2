-- ===== src/Verification/Positive.antt =====
-- When a decision is rewarded (resolveTernaryRewardSignal and assignTernaryReward of
-- verification/ternary-reward.ts).
use threadwork.Prelude.{
  ℕ, ◌≡◌, refl, Bool, true, false, not, ◌&&◌, Option, none, some, List, [], ◌∷◌, arith, ltb, leb,
  ◌==◌, any, every, keep, length, if◌then◌else◌, or_else, is_some, Bool-cases, inl, inr, ap, ◌∙◌,
}
use threadwork.Verification.Failures.{FailureSeverity, low, medium, high, critical, other_severity}
use threadwork.Verification.Critics.{
  CrossFamilyVerdict, concur, dissent, block, insufficient_same_family, unknown_verdict,
  other_verdict,
}
use threadwork.Verification.Rewards.{
  TernaryReward, negative, neutral, positive, TernaryRewardSignal, CritiqueRow, ClassificationRow,
  VerificationDb, same_verdict, row_matches, assign_ternary_reward, aggregate_cross_family_verdict,
  severity_rank, rank_of, worst_from, worst_mandatory_failure_severity, critiques_of, failures_of,
  verdict_read, severity_read, resolve_ternary_reward_signal,
}

abbrev pub is_positive : TernaryReward → Bool
is_positive negative = false
is_positive neutral = false
is_positive positive = true

abbrev is_concur : Option CrossFamilyVerdict → Bool
is_concur none = false
is_concur (some v) = same_verdict v concur

-- Nothing is known to have failed, or only with a low severity.
abbrev is_clean : Option FailureSeverity → Bool
is_clean none = true
is_clean (some low) = true
is_clean (some medium) = false
is_clean (some high) = false
is_clean (some critical) = false
is_clean (some (other_severity text)) = false

abbrev signal_of : Option CrossFamilyVerdict → Option FailureSeverity → Bool → TernaryRewardSignal
signal_of v s a = record {
  cross_family_verdict = v;
  failure_severity = s;
  failure_signal_available = a;
}

concur_row :
    (s : Option FailureSeverity) (a : Bool)
    → is_positive (assign_ternary_reward (signal_of (some concur) s a)) ≡ (is_clean s && a)
unfolding assign_ternary_reward row_matches
concur_row none true = refl
concur_row none false = refl
concur_row (some low) true = refl
concur_row (some low) false = refl
concur_row (some medium) a = refl
concur_row (some high) a = refl
concur_row (some critical) a = refl
concur_row (some (other_severity text)) a = refl

other_rows :
    (v : Option CrossFamilyVerdict) (s : Option FailureSeverity) (a : Bool)
    → is_concur v ≡ false
    → is_positive (assign_ternary_reward (signal_of v s a)) ≡ false
unfolding assign_ternary_reward row_matches
other_rows none s a e = ground arith
other_rows (some concur) s a e = cc
other_rows (some dissent) s a e = ground arith
other_rows (some block) s a e = refl
other_rows (some insufficient_same_family) s a e = ground arith
other_rows (some unknown_verdict) s a e = ground arith
other_rows (some (other_verdict text)) s a e = ground arith

assign-positive :
    (v : Option CrossFamilyVerdict) (s : Option FailureSeverity) (a : Bool)
    → is_positive (assign_ternary_reward (signal_of v s a)) ≡ (is_concur v && is_clean s && a)
assign-positive none s a = other_rows none s a refl
assign-positive (some concur) s a = concur_row s a
assign-positive (some dissent) s a = other_rows (some dissent) s a refl
assign-positive (some block) s a = other_rows (some block) s a refl
assign-positive (some insufficient_same_family) s a =
    other_rows (some insufficient_same_family) s a refl
assign-positive (some unknown_verdict) s a = other_rows (some unknown_verdict) s a refl
assign-positive (some (other_verdict text)) s a = other_rows (some (other_verdict text)) s a refl

-- Among the critiques of other families one concurs, and none blocks or dissents.
unfoldable pub is_agreed : List CritiqueRow → Bool
is_agreed critiques =
    let considered = keep (λ (c : CritiqueRow). c.is_cross_family) critiques in
    let has =
      λ (v : CrossFamilyVerdict). any (λ (c : CritiqueRow). same_verdict c.verdict v) considered in
    has concur && not (has block) && not (has dissent)

verdict_tests :
    (b d c i : Bool)
    → is_concur (
        if b
        then some block
        else if d
        then some dissent
        else if c
        then some concur
        else if i
        then some insufficient_same_family
        else some unknown_verdict)
      ≡ (c && not b && not d)
verdict_tests true d true i = refl
verdict_tests true d false i = refl
verdict_tests false true true i = refl
verdict_tests false true false i = refl
verdict_tests false false true i = refl
verdict_tests false false false true = refl
verdict_tests false false false false = refl

-- What the verdict of some rows is, the rows having been filtered.
considered_lem :
    (rows : List CritiqueRow)
    → let has =
        λ (v : CrossFamilyVerdict). any (λ (c : CritiqueRow). same_verdict c.verdict v) rows in
      is_concur (
        if length rows == 0
        then none
        else if has block
        then some block
        else if has dissent
        then some dissent
        else if has concur
        then some concur
        else if has insufficient_same_family
        then some insufficient_same_family
        else some unknown_verdict)
      ≡ (has concur && not (has block) && not (has dissent))
considered_lem [] = refl
considered_lem (r ∷ rows) =
    let has =
      λ (v : CrossFamilyVerdict). any (λ (c : CritiqueRow). same_verdict c.verdict v) (r ∷ rows) in
    let filled : (length (r ∷ rows) == 0) ≡ false = ground arith in
    rw filled (verdict_tests (has block) (has dissent) (has concur) (has insufficient_same_family))

concur-read :
    (o : Option (List CritiqueRow)) → is_concur (verdict_read o) ≡ is_agreed (or_else o [])
unfolding aggregate_cross_family_verdict is_agreed
concur-read none = refl
concur-read (some rows) = considered_lem (keep (λ (c : CritiqueRow). c.is_cross_family) rows)

abbrev is_ranked : Option FailureSeverity → Bool
is_ranked none = true
is_ranked (some low) = true
is_ranked (some medium) = true
is_ranked (some high) = true
is_ranked (some critical) = true
is_ranked (some (other_severity text)) = false

ranked_clean : (o : Option FailureSeverity) → is_ranked o ≡ true → is_clean o ≡ leb (rank_of o) 1
ranked_clean none e = refl
ranked_clean (some low) e = refl
ranked_clean (some medium) e = refl
ranked_clean (some high) e = refl
ranked_clean (some critical) e = refl
ranked_clean (some (other_severity text)) e = cc

above_ranked :
    (s : FailureSeverity) (n : ℕ) → ltb n (severity_rank s) ≡ true → is_ranked (some s) ≡ true
above_ranked low n e = refl
above_ranked medium n e = refl
above_ranked high n e = refl
above_ranked critical n e = refl
above_ranked (other_severity text) n e = ground (arith, e)

abbrev raised : Option FailureSeverity → FailureSeverity → Option FailureSeverity
raised worst s = if ltb (rank_of worst) (severity_rank s) then some s else worst

raised-IsRanked :
    (worst : Option FailureSeverity) (s : FailureSeverity)
    → is_ranked worst ≡ true
    → (is_ranked (raised worst s) ≡ true)
      × (leb (rank_of (raised worst s)) 1 ≡ (leb (rank_of worst) 1 && leb (severity_rank s) 1))
raised-IsRanked worst s e = elim (Bool-cases (ltb (rank_of worst) (severity_rank s))) [
  | inl above ↦ rw above (above_ranked s (rank_of worst) above, ground (arith, above))
  | inr under ↦ rw under (e, ground (arith, under))
]

-- No failure is above the low severity.
unfoldable pub is_mild : List ClassificationRow → Bool
is_mild rows = every (λ (c : ClassificationRow). leb (severity_rank c.quad.severity) 1) rows

and_assoc : (a b c : Bool) → ((a && b) && c) ≡ (a && (if b then c else false))
and_assoc true true c = refl
and_assoc true false c = refl
and_assoc false b c = refl

clean-worst :
    (worst : Option FailureSeverity) (rows : List ClassificationRow)
    → is_ranked worst ≡ true
    → is_clean (worst_from worst rows) ≡ (leb (rank_of worst) 1 && is_mild rows)
unfolding worst_from is_mild
clean-worst worst [] e = ranked_clean worst e ∙ ground arith
clean-worst worst (c ∷ later) e =
    let (ranked, bound) = raised-IsRanked worst c.quad.severity e in
    clean-worst (raised worst c.quad.severity) later ranked
    ∙ ap (λ b. b && is_mild later) bound
    ∙ and_assoc (leb (rank_of worst) 1) (leb (severity_rank c.quad.severity) 1) (is_mild later)

clean-read :
    (o : Option (List ClassificationRow))
    → (is_clean (severity_read o).0 && (severity_read o).1) ≡ (is_some o && is_mild (or_else o []))
unfolding worst_mandatory_failure_severity is_mild
clean-read none = refl
clean-read (some rows) = ap (λ b. b && true) (clean-worst none rows refl) ∙ and_true (is_mild rows)
  where
    and_true : (b : Bool) → (b && true) ≡ b
    and_true true = refl
    and_true false = refl

-- A decision is rewarded exactly if, among its critiques by other families, one concurs and none blocks
-- or dissents, and the failures of its task have been read, and none of them is above the low
-- severity. Critiques that cannot be read count as none.
pub rewarded_iff :
    (db : VerificationDb) (decision_id : ℕ) (task_id : Option ℕ)
    → is_positive (assign_ternary_reward (resolve_ternary_reward_signal db decision_id task_id)) ≡ (
        is_agreed (or_else (critiques_of decision_id db) [])
        && (is_some (failures_of task_id db) && is_mild (or_else (failures_of task_id db) [])))
unfolding resolve_ternary_reward_signal
rewarded_iff db decision_id task_id =
    let v = verdict_read (critiques_of decision_id db) in
    let r = severity_read (failures_of task_id db) in
    assign-positive v r.0 r.1
    ∙ ap (λ b. b && is_clean r.0 && r.1) (concur-read (critiques_of decision_id db))
    ∙ regroup (is_agreed (or_else (critiques_of decision_id db) [])) (is_clean r.0) r.1
    ∙ ap (λ b. is_agreed (or_else (critiques_of decision_id db) []) && b)
        (clean-read (failures_of task_id db))
  where
    regroup : (a b c : Bool) → ((a && b) && c) ≡ (a && (b && c))
    regroup true b c = refl
    regroup false b c = refl
