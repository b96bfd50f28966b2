-- ===== src/Witnesses/Alerts.antt =====
-- The theorems on urgency and escalations, at concrete agents.
use threadwork.Prelude.{
  ℕ, ◌≡◌, true, false, none, some, List, [], ◌∷◌, arith, if◌then◌else◌, str_eq, refl,
}
use threadwork.Prelude.Store.{missing, saved, lookup, load}
use threadwork.Urgency.{Alert, Router, Severity, critical, SeverityRule, SeverityMap}
use threadwork.Urgency.Cooldown.{emits, emits-IsSpaced-from_fresh, IsSpaced}
use threadwork.Escalation.{
  Host, Effect, audit, mcp, EscalationBridge, AgentEscalationState, AgentTickInput,
  execute_with_fallback, agent_state,
}
use threadwork.Escalation as E
use threadwork.Escalation.Climb.{Beat, ticks, acted, level, IsClimb, steps_in_order}
use threadwork.Escalation.Parking.{parked_time_counts, Waits}

abbrev router : Router
router = record { initial_cooldown_sec = 120; dedup_file = missing }

emits-IsSpaced-from_fresh_example :
    (rest : List ℕ) × (emits "bob|STUCK" true (0 ∷ 60 ∷ 130 ∷ 200 ∷ 400 ∷ []) router ≡ 0 ∷ rest)
    × IsSpaced 0 0 rest
unfolding lookup load
emits-IsSpaced-from_fresh_example =
    emits-IsSpaced-from_fresh "bob|STUCK" true 0 (60 ∷ 130 ∷ 200 ∷ 400 ∷ []) router refl refl

abbrev restart_loop : Alert
restart_loop key = if str_eq key "state" then some "STUCK" else some "RESTART_LOOP"

abbrev looping : SeverityRule
looping = record { match_labels = ("state", "LOOP") ∷ []; severity = Severity.warning }

abbrev stuck_rule : SeverityRule
stuck_rule = record { match_labels = ("state", "STUCK") ∷ []; severity = critical }

abbrev two_rules : SeverityMap
two_rules = record { mappings = looping ∷ stuck_rule ∷ looping ∷ []; default_severity = none }

abbrev fair_host : Host
fair_host = record {
  audit_ok = true;
  fallback_audit_ok = true;
  attempt_ok = λ i. false;
  fallback_ok = true;
  has_failure_callback = false;
}

abbrev bridge : EscalationBridge
bridge = record {
  state_file = missing;
  enabled_agents = none;
  lock_acquired = true;
  esc1_delay_sec = 600;
  esc2_delay_sec = 1800;
  esc3_delay_sec = 3600;
}

abbrev stuck_at : ℕ → Beat
stuck_at now = record {
  host = fair_host;
  input = record { classifier_state = E.stuck; agent_status_updated_at = none };
  at = now;
}

steps_in_order_example :
    let ts = stuck_at 100 ∷ stuck_at 800 ∷ stuck_at 2000 ∷ stuck_at 4000 ∷ stuck_at 5000 ∷ [] in
    IsClimb (level (agent_state "bob" bridge)) (acted (ticks "bob" ts bridge).0)
steps_in_order_example =
    steps_in_order "bob"
      (stuck_at 100 ∷ stuck_at 800 ∷ stuck_at 2000 ∷ stuck_at 4000 ∷ stuck_at 5000 ∷ []) bridge refl

-- Seen stuck at 100, and not yet nudged.
abbrev waiting_bridge : EscalationBridge
waiting_bridge = record bridge {
  state_file = saved (
      (
        "bob",
        record {
          current_episode_start_unix = some 100;
          escalation_step = 0;
          last_action_at_unix = none;
          parked_accumulated_sec = 0;
        },
      )
      ∷ []);
}

abbrev parked_at : ℕ → Beat
parked_at now = record {
  host = fair_host;
  input = record { classifier_state = E.parked_picker; agent_status_updated_at = none };
  at = now;
}

bob-Waits : Waits "bob" 600 100 waiting_bridge
unfolding agent_state E.is_enabled lookup load
bob-Waits = record { on = refl; episode = refl; step = refl; delayed = refl }

parked_time_counts_example :
    acted
      (E.tick fair_host "bob"
        (stuck_at 705).input
        705
        (ticks "bob" (parked_at 110 ∷ parked_at 700 ∷ []) waiting_bridge).1).effects
    ≡ 1 ∷ []
parked_time_counts_example =
    parked_time_counts "bob" (parked_at 110 ∷ parked_at 700 ∷ []) fair_host (stuck_at 705).input 705
      600 100 waiting_bridge bob-Waits refl refl (omega arith) refl
