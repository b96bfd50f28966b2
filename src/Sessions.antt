-- ===== src/Sessions.antt =====
-- The table agent_sessions of db.ts: session records, declared states, and the circuit breaker that
-- faults open. Times are in seconds; `now_ms` is `Date.now()`.
pub mod Circuit
use threadwork.Prelude.{
  ℕ, ◌+◌, ◌-◌, ◌*◌, ◌/◌, min, String, Bool, true, false, not, ◌&&◌, Option, none, some, ltb, leb,
  if◌then◌else◌, or_else,
}
use threadwork.Prelude.Store.{Store, lookup, insert}

pub data CircuitState : Type 0 where
  closed open_circuit half_open : CircuitState

pub data Source : Type 0 where
  mcp hook heartbeat boot : Source

pub record Session : Type 0 where
  pub session_id : Option String
  pub last_seen_at : ℕ
  pub state : String
  pub state_changed_at : Option ℕ
  pub state_source : Option Source
  pub current_task_id : Option ℕ
  pub current_tool : Option String
  pub claude_pid : Option ℕ
  pub circuit_state : Option CircuitState
  pub fault_count : Option ℕ
  pub last_fault_at : Option ℕ
  pub last_fault_type : Option String
  pub circuit_opened_at : Option ℕ
  pub cooldown_until : Option ℕ

-- Keyed by agent, the table's primary key.
abbrev pub Sessions : Type 0
Sessions = Store Session

-- A row with the column defaults.
unfoldable pub new_session : ℕ → String → Session
new_session now state = record {
  session_id = none;
  last_seen_at = now;
  state = state;
  state_changed_at = none;
  state_source = none;
  current_task_id = none;
  current_tool = none;
  claude_pid = none;
  circuit_state = some closed;
  fault_count = some 0;
  last_fault_at = none;
  last_fault_type = none;
  circuit_opened_at = none;
  cooldown_until = none;
}

-- UPDATE agent_sessions SET f WHERE agent = ?
unfoldable pub update_session : String → (Session → Session) → Sessions → Sessions
update_session who f s = elim (lookup who s) [ none ↦ s | some r ↦ insert who (f r) s ]

-- INSERT … ON CONFLICT(agent) DO UPDATE
unfoldable pub upsert_session : String → Session → (Session → Session) → Sessions → Sessions
upsert_session who fresh f s = insert who (elim (lookup who s) [ none ↦ fresh | some r ↦ f r ]) s

unfoldable pub upsert_agent_session : ℕ → String → String → String → Sessions → Sessions
unfolding upsert_session new_session
upsert_agent_session now who session state =
    let fresh = new_session now state in
    upsert_session who (record fresh { session_id = some session })
      (λ r. record r { session_id = some session; last_seen_at = now; state = state })

unfoldable pub priority : Source → ℕ
priority mcp = 3
priority hook = 2
priority heartbeat = 1
priority boot = 0

source_priority : Option Source → ℕ
unfolding priority
source_priority none = 0
source_priority (some s) = priority s

-- incomingPriority < existingPriority && ageMs < 1000
unfoldable pub is_outranked : ℕ → Source → Session → Bool
unfolding source_priority priority
is_outranked now_ms source r =
    ltb (priority source) (source_priority r.state_source)
    && elim r.state_changed_at [ none ↦ false | some at ↦ ltb now_ms (at * 1000 + 1000) ]

pub record StateOptions : Type 0 where
  pub task_id : Option ℕ
  pub tool : Option String
  pub pid : Option ℕ

-- What a declaration writes to a row that is there.
unfoldable pub overwrite : ℕ → String → Source → StateOptions → Session → Session
overwrite now state source opts r = record r {
  state = state;
  state_changed_at = some now;
  state_source = some source;
  current_task_id = elim opts.task_id [ none ↦ r.current_task_id | some t ↦ some t ];
  current_tool = opts.tool;
  claude_pid = elim opts.pid [ none ↦ r.claude_pid | some p ↦ some p ];
  last_seen_at = now;
}

declare_over : ℕ → String → String → Source → StateOptions → Option Session → Sessions → Sessions
unfolding is_outranked overwrite new_session
declare_over now_ms who state source opts none s =
    insert who (overwrite (now_ms / 1000) state source opts (new_session (now_ms / 1000) state)) s
declare_over now_ms who state source opts (some r) s =
    if is_outranked now_ms source r
    then s
    else insert who (overwrite (now_ms / 1000) state source opts r) s

-- With no state the call only refreshes the two times of a row that is there.
unfoldable pub declare_agent_state :
    ℕ → String → Option String → Source → StateOptions → Sessions → Sessions
unfolding update_session declare_over
declare_agent_state now_ms who none source opts s =
    let now = now_ms / 1000 in
    update_session who (λ r. record r { state_changed_at = some now; last_seen_at = now }) s
declare_agent_state now_ms who (some state) source opts s =
    declare_over now_ms who state source opts (lookup who s) s

abbrev pub fault_threshold : ℕ
fault_threshold = 3

abbrev pub cooldown_sec : ℕ
cooldown_sec = 300

-- circuit_state !== 'open'
abbrev pub is_open : Option CircuitState → Bool
is_open (some open_circuit) = true
is_open _ = false

-- The first UPDATE of recordFault: the count saturates one above the threshold.
unfoldable pub charge : ℕ → String → Session → Session
charge now fault r = record r {
  fault_count = some (min (or_else r.fault_count 0 + 1) (fault_threshold + 1));
  last_fault_at = some now;
  last_fault_type = some fault;
}

-- The second one, under its test.
unfoldable pub trip : ℕ → Session → Session
trip now r =
    if leb fault_threshold (or_else r.fault_count 0) && not (is_open r.circuit_state)
    then record r {
      circuit_state = some open_circuit;
      circuit_opened_at = some now;
      cooldown_until = some (now + cooldown_sec);
    }
    else r

pub record FaultReport : Type 0 where
  pub circuit_state : CircuitState
  pub fault_count : ℕ

unfoldable pub record_fault : ℕ → String → String → Sessions → FaultReport × Sessions
unfolding charge trip
record_fault now who fault s = elim (lookup who s) [
  | none ↦ (record { circuit_state = closed; fault_count = 0 }, s)
  | some r ↦
      let r' = trip now (charge now fault r) in
      (
        record {
          circuit_state = or_else r'.circuit_state closed;
          fault_count = or_else r'.fault_count 0;
        },
        insert who r' s,
      )
]

-- circuit_state === 'open', and the cooldown, if there is one, has elapsed.
unfoldable pub may_half_open : ℕ → Session → Bool
may_half_open now r =
    is_open r.circuit_state && elim r.cooldown_until [ none ↦ true | some t ↦ not (ltb now t) ]

unfoldable pub try_half_open : ℕ → String → Sessions → Bool × Sessions
unfolding may_half_open
try_half_open now who s = elim (lookup who s) [
  | none ↦ (false, s)
  | some r ↦
      if may_half_open now r
      then (true, insert who (record r { circuit_state = some half_open }) s)
      else (false, s)
]

unfoldable pub close_circuit : String → Sessions → Sessions
unfolding update_session
close_circuit who = update_session who (λ r. record r {
  circuit_state = some closed;
  fault_count = some 0;
  circuit_opened_at = none;
  cooldown_until = none;
})

unfoldable pub reopen_circuit : ℕ → String → Sessions → Sessions
unfolding update_session
reopen_circuit now who = update_session who (λ r. record r {
  circuit_state = some open_circuit;
  cooldown_until = some (now + cooldown_sec);
})

unfoldable pub is_circuit_open : String → Sessions → Bool
is_circuit_open who s = elim (lookup who s) [ none ↦ false | some r ↦ is_open r.circuit_state ]

-- The decay that a heartbeat of a worker's task makes.
unfoldable pub decay_fault : Option String → Sessions → Sessions
unfolding update_session
decay_fault none s = s
decay_fault (some who) s =
    update_session who (λ r. record r { fault_count = some (or_else r.fault_count 0 - 1) }) s
