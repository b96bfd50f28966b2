-- ===== src/Escalation.antt =====
-- The escalation bridge of src/escalation-bridge/index.ts: a stuck agent is nudged, interrupted, and
-- reported to the boss. What the callbacks and the files answer in a tick is a parameter of the tick;
-- the texts of the messages and of the audit entries are left out. Times are in seconds.
pub mod Climb
pub mod Fallback
pub mod Parking
use threadwork.Prelude.{
  ℕ, zero, suc, ◌+◌, String, Bool, true, false, not, ◌&&◌, ◌||◌, Option, none, some, List, [], ◌∷◌,
  ◌++◌, ◌==◌, str_eq, ltb, leb, if◌then◌else◌, or_else, any,
}
use threadwork.Prelude.Store.{File, saved, load, Store, lookup, insert}

pub data ClassifierState : Type 0 where
  alive idle stuck parked_picker parked_picker_stale watchdog_dead loop : ClassifierState

pub record AgentTickInput : Type 0 where
  pub classifier_state : ClassifierState
  pub agent_status_updated_at : Option ℕ

pub record AgentEscalationState : Type 0 where
  pub current_episode_start_unix : Option ℕ
  pub escalation_step : ℕ
  pub last_action_at_unix : Option ℕ
  pub parked_accumulated_sec : ℕ

pub data Method : Type 0 where
  mcp sqlite_fallback : Method

-- What a tick does outside of its state: an audit entry, a call of the step's action, the fallback, the
-- Telegram message of last resort, and the report of the failure.
pub data Effect : Type 0 where
  audit : ℕ → Method → Effect
  call : ℕ → ℕ → Effect
  fallback : ℕ → Effect
  critical_telegram : ℕ → Effect
  failure_classified : ℕ → Effect

-- What the host answers in one tick: whether the two audit writes succeed, whether the action
-- succeeds at its attempts 0, 1 and 2, whether the fallback does, and whether a failure is reported.
pub record Host : Type 0 where
  pub audit_ok : Bool
  pub fallback_audit_ok : Bool
  pub attempt_ok : ℕ → Bool
  pub fallback_ok : Bool
  pub has_failure_callback : Bool

pub record EscalationBridge : Type 0 where
  pub state_file : File (Store AgentEscalationState)
  pub enabled_agents : Option (List String)  -- none where the file is missing, broken or silent
  pub lock_acquired : Bool
  pub esc1_delay_sec : ℕ
  pub esc2_delay_sec : ℕ
  pub esc3_delay_sec : ℕ

unfoldable pub is_enabled : String → EscalationBridge → Bool
is_enabled who b = elim b.enabled_agents [
  | none ↦ true
  | some names ↦ any (λ n. str_eq n who) names
]

-- The attempts from number i on, as many as are left; whether one succeeded.
unfoldable pub try_attempts : Host → ℕ → ℕ → ℕ → List Effect × Bool
try_attempts h step i zero = ([], false)
try_attempts h step i (suc left) =
    let (later, ok) = try_attempts h step (suc i) left in
    if h.attempt_ok i then (call step i ∷ [], true) else (call step i ∷ later, ok)

unfoldable pub all_paths_failed : Host → ℕ → List Effect
all_paths_failed h step =
    critical_telegram step ∷ (if h.has_failure_callback then failure_classified step ∷ [] else [])

-- The audit entry of the fallback stands in front of it, and its failure counts as the fallback's.
unfoldable pub try_fallback : Host → ℕ → List Effect
unfolding all_paths_failed
try_fallback h step =
    if not h.fallback_audit_ok
    then all_paths_failed h step
    else if h.fallback_ok
    then audit step sqlite_fallback ∷ fallback step ∷ []
    else audit step sqlite_fallback ∷ fallback step ∷ all_paths_failed h step

-- What follows the first audit write: the attempts, and the fallback if they fail.
unfoldable pub reach_out : Host → ℕ → List Effect
unfolding try_attempts try_fallback
reach_out h step =
    let (calls, ok) = try_attempts h step 0 3 in if ok then calls else calls ++ try_fallback h step

-- none where the first audit write throws: then nothing is done.
unfoldable pub execute_with_fallback : Host → ℕ → Option (List Effect)
unfolding reach_out
execute_with_fallback h step = if h.audit_ok then some (audit step mcp ∷ reach_out h step) else none

abbrev pub new_state : AgentEscalationState
new_state = record {
  current_episode_start_unix = none;
  escalation_step = 0;
  last_action_at_unix = none;
  parked_accumulated_sec = 0;
}

unfoldable pub agent_state : String → EscalationBridge → AgentEscalationState
agent_state who b = or_else (lookup who (load b.state_file)) new_state

unfoldable pub save_state : String → AgentEscalationState → EscalationBridge → EscalationBridge
save_state who s b = record b { state_file = saved (insert who s (load b.state_file)) }

-- The state of a stuck agent, with an episode, and the start of the episode.
unfoldable pub open_episode : ℕ → AgentEscalationState → AgentEscalationState × ℕ
open_episode now s = elim s.current_episode_start_unix [
  | none ↦ (
    record s {
      current_episode_start_unix = some now;
      escalation_step = 0;
      parked_accumulated_sec = 0;
    },
    now,
  )
  | some start ↦ (s, start)
]

-- The step that is due. now - start >= delay, and the guard of the interrupt, now - updated > 30, are
-- over the integers.
unfoldable pub due_step : EscalationBridge → AgentTickInput → ℕ → ℕ → ℕ → Option ℕ
due_step b input now start step =
    if ltb step 1 && leb (start + b.esc1_delay_sec) now
    then some 1
    else if (step == 1) && leb (start + b.esc2_delay_sec) now
    then if leb now (or_else input.agent_status_updated_at 0 + 30) then none else some 2
    else if (step == 2) && leb (start + b.esc3_delay_sec) now
    then some 3
    else none

pub record Ticked : Type 0 where
  pub effects : List Effect
  pub bridge : EscalationBridge
  pub threw : Bool

abbrev stepped : ℕ → ℕ → AgentEscalationState → AgentEscalationState
stepped now step s = record s { escalation_step = step; last_action_at_unix = some now }

-- The action of a step, and the state after it; an exception leaves the file as it is.
unfoldable pub act : Host → String → ℕ → ℕ → AgentEscalationState → EscalationBridge → Ticked
unfolding execute_with_fallback save_state
act h who now step s b = elim (execute_with_fallback h step) [
  | none ↦ record { effects = []; bridge = b; threw = true }
  | some done_effects ↦ record {
    effects = done_effects;
    bridge = save_state who (stepped now step s) b;
    threw = false;
  }
]

unfoldable pub stuck_tick : Host → String → AgentTickInput → ℕ → EscalationBridge → Ticked
unfolding agent_state open_episode due_step act save_state
stuck_tick h who input now b =
    let (s, start) = open_episode now (agent_state who b) in
    elim (due_step b input now start s.escalation_step) [
      | none ↦ record { effects = []; bridge = save_state who s b; threw = false }
      | some step ↦ act h who now step s b
    ]

abbrev pub is_parked_state : ClassifierState → Bool
is_parked_state parked_picker = true
is_parked_state parked_picker_stale = true
is_parked_state _ = false

abbrev pub is_stuck : ClassifierState → Bool
is_stuck stuck = true
is_stuck _ = false

unfoldable pub tick : Host → String → AgentTickInput → ℕ → EscalationBridge → Ticked
unfolding is_enabled agent_state save_state stuck_tick
tick h who input now b =
    if not (b.lock_acquired && is_enabled who b)
    then record { effects = []; bridge = b; threw = false }
    else if is_parked_state input.classifier_state
    then record { effects = []; bridge = save_state who (agent_state who b) b; threw = false }
    else if not (is_stuck input.classifier_state)
    then record { effects = []; bridge = save_state who new_state b; threw = false }
    else stuck_tick h who input now b
