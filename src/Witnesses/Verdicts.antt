-- ===== src/Witnesses/Verdicts.antt =====
-- Findings, violations, alerts and rewards on small tables.
use threadwork.Prelude.{
  ℕ, zero, suc, ◌≡◌, refl, String, true, false, ◌&&◌, none, some, [], ◌∷◌, arith, ◌⊎◌, or_else,
  is_some,
}
use threadwork.Blackboard.{FindingInput, Blackboard, Flags, write_finding, is_feature_enabled}
use threadwork.Blackboard.Writing.{write_finding_idem}
use threadwork.Signals.{
  Signals, Violation, is_quarantined, get_recent_violation_count, record_violation, should_alert,
}
use threadwork.Signals.Quarantine.{fifth_quarantines}
use threadwork.Signals.Repeats.{back_and_forth}
use threadwork.Verification.Critics.{concur, anthropic, openai}
use threadwork.Verification.Rewards.{
  VerificationDb, assign_ternary_reward, resolve_ternary_reward_signal, critiques_of, failures_of,
  requires_cross_family_review, row_matches, aggregate_cross_family_verdict,
  worst_mandatory_failure_severity, worst_from,
}
use threadwork.Verification.Positive.{is_positive, is_agreed, is_mild, rewarded_iff}
use threadwork.Verification.Persisting.{Steps, skipped, thrown, persisted, assess_and_persist}
use threadwork.Connection.{Connection}
use threadwork.Verification.Atomic.{assess_and_persist_lem}
use threadwork.Verification.Debts.{rewarded_owes_nothing}
use threadwork.Ordering.{Outcome, begun, busy, Host, Handle, Result, threw, with_memory_write_txn}
use threadwork.Ordering.Whole.{IsWhole, txn-IsWhole}

abbrev flags : Flags
flags =
    ("blackboard_enabled", true) ∷ ("gates_enabled", true) ∷ ("ternary_reward_enabled", true) ∷ []

abbrev partial : FindingInput
partial = record {
  task_id = 1;
  finding_type = "partial";
  summary = "half done";
  agent_id = "bob";
  attempt_id = some 2;
  parent_agent_id = none;
  status = none;
  is_final = none;
  metrics_json = none;
  refs_json = none;
  metadata_json = none;
  priority = none;
  expires_at = none;
}

abbrev blackboard : Blackboard
blackboard = record {
  flags = flags;
  findings = [];
  next_finding_id = 1;
  artifacts = [];
  next_artifact_id = 1;
}

write_finding_idem_example :
    let first = write_finding (λ text. 9) (λ text. text) 10 partial blackboard in
    write_finding (λ text. 9) (λ text. text) 20 partial first.1 ≡ first
unfolding is_feature_enabled
write_finding_idem_example =
    write_finding_idem (λ text. 9) (λ text. text) 10 20 partial 2 blackboard (refl, refl) refl

abbrev violation_at : ℕ → Violation
violation_at created_at = record {
  id = created_at;
  agent_id = "bob";
  violation_type = "scope";
  detail = "out of scope";
  task_id = some 1;
  created_at = created_at;
}

abbrev signals : Signals
signals = record {
  flags = flags;
  violations = violation_at 4 ∷ violation_at 3 ∷ violation_at 2 ∷ violation_at 1 ∷ [];
  next_violation_id = 5;
  events = [];
  next_event_id = 1;
  alerts = [];
  throttle_cache = [];
}

fifth_quarantines_example :
    is_quarantined 9000 "bob" (record_violation 9 "bob" "scope" "again" none signals).1 ≡ true
unfolding is_feature_enabled get_recent_violation_count
fifth_quarantines_example =
    fifth_quarantines 9000 "bob" "scope" "again" none signals refl (omega arith)

back_and_forth_example :
    let once = (should_alert 1000 7 "stale" "h1" 1800 signals).1 in
    let twice = should_alert 2000 7 "stale" "h2" 1800 once in
    (twice.0 ≡ true) × ((should_alert 3000 7 "stale" "h1" 1800 twice.1).0 ≡ true)
back_and_forth_example = back_and_forth 1000 2000 3000 7 "stale" "h1" "h2" 1800 signals refl

abbrev reviewed : VerificationDb
reviewed = record {
  flags = flags;
  decisions = (3, some 1) ∷ [];
  critiques = some (
      record {
        id = 1;
        decision_id = 3;
        producer_family = anthropic;
        critic_family = openai;
        is_cross_family = true;
        verdict = concur;
      }
      ∷ []);
  classifications = some [];
  rewards = [];
  next_reward_id = 1;
  audit_log = [];
}

rewarded_iff_example :
    is_positive (assign_ternary_reward (resolve_ternary_reward_signal reviewed 3 (some 1))) ≡ (
      is_agreed (or_else (critiques_of 3 reviewed) [])
      && (is_some (failures_of (some 1) reviewed)
          && is_mild (or_else (failures_of (some 1) reviewed) [])))
rewarded_iff_example = rewarded_iff reviewed 3 (some 1)

rewarded_owes_nothing_example : requires_cross_family_review 3 reviewed ≡ false
unfolding assign_ternary_reward resolve_ternary_reward_signal row_matches
    aggregate_cross_family_verdict worst_mandatory_failure_severity worst_from critiques_of
    failures_of
rewarded_owes_nothing_example = rewarded_owes_nothing reviewed 3 (some 1) refl

abbrev audit_fails : Steps
audit_fails = record {
  begins = true;
  inserts = true;
  audits = false;
  commits = true;
  rolls_back = true;
}

abbrev connection : Connection VerificationDb
connection = record { contents = reviewed; before = none }

assess_and_persist_lem_example :
    let out = assess_and_persist audit_fails 3 (some 1) connection in
    let signal = resolve_ternary_reward_signal reviewed 3 (some 1) in
    (((out.0 ≡ skipped) ⊎ (out.0 ≡ thrown)) × (out.1 ≡ connection))
    ⊎ ((out.0 ≡ thrown) × (true ≡ false) × (out.1.before ≡ some reviewed))
    ⊎ ((out.0 ≡ persisted 1)
        × (out.1.contents ≡ record reviewed {
          rewards =
              record {
                id = 1;
                decision_id = 3;
                task_id = some 1;
                signal = signal;
                reward = assign_ternary_reward signal;
              }
              ∷ [];
          next_reward_id = 2;
          audit_log = ("ternary_reward_assigned", some 1) ∷ [];
        })
        × (out.1.before ≡ none))
assess_and_persist_lem_example = assess_and_persist_lem audit_fails 3 (some 1) connection

-- The second attempt begins the transaction.
abbrev second_begins : ℕ → Outcome
second_begins zero = busy
second_begins (suc n) = begun

abbrev host : Host
host = record { attempt = second_begins; commits = true; rolls_back = true }

-- A callback that writes and then throws.
abbrev full : Handle ℕ → Result String ℕ × Handle ℕ
full h = (
  threw "full",
  record h { connection = record h.connection { contents = suc h.connection.contents } },
)

abbrev counted : Handle ℕ
counted = record { connection = record { contents = 5; before = none }; active = false }

txn-IsWhole_example :
    let done = with_memory_write_txn host full counted in
    (done.1.active ≡ false) × IsWhole host full counted done.0 done.1.connection
txn-IsWhole_example = txn-IsWhole host full counted (λ h marked. refl)
