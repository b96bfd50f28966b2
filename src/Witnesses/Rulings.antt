-- ===== src/Witnesses/Rulings.antt =====
-- A decision that ends, and one that is stale.
use threadwork.Prelude.{ℕ, ◌≡◌, refl, false, none, some, List, [], ◌∷◌, arith}
use threadwork.Integrity.{Host}
use threadwork.Decisions.{Decision, DecisionDb, expired, finalized, open_status, decision_of}
use threadwork.Decisions.Listing.{expire_stale_decisions}
use threadwork.Decisions.Final.{Op, finalizes, criticizes, cancels, sweeps, run, ended_for_ever}
use threadwork.Decisions.Sweep.{sweep-expires}

-- A host with one pattern, which never matches.
abbrev host : Host
host = record {
  detection_patterns =
      record { id = "forged-trust-marker"; replaced = λ text. none; agent_tier_only = false } ∷ [];
  deobfuscated = λ text. text;
  replace_all = λ old new text. text;
  number_text = λ n. "n";
}

abbrev stale : Decision
stale = record {
  id = 1;
  title = "rename";
  context = none;
  opened_by = "ann";
  status = open_status;
  finalized_by = none;
  outcome = none;
  outcome_rationale = none;
  expires_at = some "2026-01-01";
  memory_id = none;
  task_id = none;
  created_at = 5;
  updated_at = 5;
  finalized_at = none;
}

abbrev settled : Decision
settled = record stale { id = 2; status = finalized; outcome = some "yes"; memory_id = some 4 }

abbrev decisions : DecisionDb
decisions = record {
  flags = [];
  decisions = settled ∷ stale ∷ [];
  next_decision_id = 3;
  positions = [];
  next_position_id = 1;
  critiques = [];
  next_critique_id = 1;
  memories = [];
  next_memory_id = 5;
  audit_log = [];
}

abbrev attempts : List (ℕ × Op)
attempts =
    (10, finalizes 2 "bob" "no" "because")
    ∷ (11, cancels 2 "late")
    ∷ (12, criticizes 1 "bob" "unclear" none none)
    ∷ (13, sweeps "2026-02-01")
    ∷ []

ended_for_ever_example : decision_of 2 (run host attempts decisions).decisions ≡ some settled
unfolding decision_of
ended_for_ever_example = ended_for_ever host attempts 2 settled decisions (omega arith) refl refl

sweep-expires_example :
    (u : Decision) × (decision_of 1
        (expire_stale_decisions host 20 "2026-02-01" decisions).1.decisions
      ≡ some u)
    × (u.status ≡ expired)
unfolding decision_of
sweep-expires_example =
    sweep-expires host 20 "2026-02-01" 1 stale decisions (omega arith) refl refl refl
