-- ===== src/Verification/Persisting.antt =====
-- The writes of verification/: persistTernaryReward and assessAndPersistTernaryRewardForDecision of
-- ternary-reward.ts, and persistFailureClassification of failure-classification.ts. Each is a
-- transaction of two statements on the connection; which statements are accepted is given.
use threadwork.Prelude.{
  ℕ, suc, Bool, true, false, not, ◌&&◌, Option, none, some, List, ◌∷◌, if◌then◌else◌, is_some,
}
use threadwork.Connection.{Connection, Stepped, begin_immediate, write, commit, rollback, and_then}
use threadwork.Blackboard.{is_feature_enabled}
use threadwork.Verification.Failures.{FailureClassification}
use threadwork.Verification.Rewards.{
  ClassificationRow, VerificationDb, TernaryReward, TernaryRewardSignal,
  resolve_ternary_reward_signal, assign_ternary_reward,
}

-- Which statements of a transaction are accepted.
pub record Steps : Type 0 where
  pub begins : Bool
  pub inserts : Bool
  pub audits : Bool
  pub commits : Bool
  pub rolls_back : Bool

pub data Persisted : Type 0 where
  skipped thrown : Persisted
  persisted : ℕ → Persisted

module _ {ℓ} {D : Type ℓ} where
  -- The try block.
  abbrev pub tried : Steps → (D → D) → (D → D) → Connection D → Stepped D
  tried s insert audit c =
      and_then (write s.inserts insert c)
        (λ c. and_then (write s.audits audit c) (λ c. commit s.commits c))

  -- The catch block: a ROLLBACK that fails is swallowed, and the first error is thrown.
  abbrev pub caught : Steps → ℕ → Stepped D → Persisted × Connection D
  caught s id (true, c) = (persisted id, c)
  caught s id (false, c) = (thrown, (rollback s.rolls_back c).1)

  -- What follows BEGIN IMMEDIATE, which stands outside the try block.
  abbrev pub after_begin : Steps → ℕ → (D → D) → (D → D) → Stepped D → Persisted × Connection D
  after_begin s id insert audit (false, c) = (thrown, c)
  after_begin s id insert audit (true, c) = caught s id (tried s insert audit c)

  -- The id is that of the row that is inserted.
  abbrev pub insert_with_audit :
      Steps → ℕ → (D → D) → (D → D) → Connection D → Persisted × Connection D
  insert_with_audit s id insert audit c = after_begin s id insert audit (begin_immediate s.begins c)

abbrev pub insert_reward :
    ℕ → Option ℕ → TernaryRewardSignal → TernaryReward → VerificationDb → VerificationDb
insert_reward decision_id task_id signal reward db = record db {
  rewards =
      record {
        id = db.next_reward_id;
        decision_id = decision_id;
        task_id = task_id;
        signal = signal;
        reward = reward;
      }
      ∷ db.rewards;
  next_reward_id = suc db.next_reward_id;
}

abbrev pub audit_reward : Option ℕ → VerificationDb → VerificationDb
audit_reward task_id db = record db {
  audit_log = ("ternary_reward_assigned", task_id) ∷ db.audit_log;
}

unfoldable pub persist_ternary_reward :
    Steps
    → ℕ
    → Option ℕ
    → TernaryRewardSignal
    → TernaryReward
    → Connection VerificationDb
    → Persisted × Connection VerificationDb
unfolding is_feature_enabled
persist_ternary_reward s decision_id task_id signal reward c =
    if not (is_feature_enabled "ternary_reward_enabled" c.contents.flags)
    then (skipped, c)
    else insert_with_audit s c.contents.next_reward_id
        (insert_reward decision_id task_id signal reward) (audit_reward task_id) c

unfoldable pub assess_and_persist :
    Steps → ℕ → Option ℕ → Connection VerificationDb → Persisted × Connection VerificationDb
unfolding resolve_ternary_reward_signal assign_ternary_reward persist_ternary_reward
assess_and_persist s decision_id task_id c =
    let signal = resolve_ternary_reward_signal c.contents decision_id task_id in
    persist_ternary_reward s decision_id task_id signal (assign_ternary_reward signal) c

-- The table with a row more.
abbrev pub with_row :
    ℕ → FailureClassification → Option (List ClassificationRow) → Option (List ClassificationRow)
with_row id c none = none
with_row id c (some rows) = some (record { id = id; task_id = c.task_id; quad = c.quad } ∷ rows)

abbrev pub insert_classification : ℕ → FailureClassification → VerificationDb → VerificationDb
insert_classification id c db = record db { classifications = with_row id c db.classifications }

abbrev pub audit_classification : FailureClassification → VerificationDb → VerificationDb
audit_classification c db = record db {
  audit_log = ("failure_classified", c.task_id) ∷ db.audit_log;
}

-- The id that the row gets is given. An INSERT into a table that cannot be read is refused.
unfoldable pub persist_failure_classification :
    Steps
    → ℕ
    → FailureClassification
    → Connection VerificationDb
    → Persisted × Connection VerificationDb
unfolding is_feature_enabled
persist_failure_classification s id c conn =
    let readable = is_some conn.contents.classifications in
    if not (is_feature_enabled "failure_classification_enabled" conn.contents.flags)
    then (skipped, conn)
    else insert_with_audit (record s { inserts = s.inserts && readable }) id
        (insert_classification id c) (audit_classification c) conn
