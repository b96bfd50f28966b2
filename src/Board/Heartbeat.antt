-- ===== src/Board/Heartbeat.antt =====
-- updateHeartbeat of db.ts. A heartbeat that is not blocked also lowers the fault count of the
-- row's agent in agent_sessions, unless the row is a sub-agent's.
use threadwork.Prelude.{
  ℕ, ◌+◌, String, Bool, true, false, not, Option, none, some, ◌==◌, str_eq, if◌then◌else◌, or_else,
}
use threadwork.Board.Task.{
  Task, Board, BlockedOn, human, external_api, upstream_task, get_row, update_returning,
}
use threadwork.Board.Create.{heartbeat_timeout_default}
use threadwork.Board.Transitions.{Outcome}
use threadwork.Sessions.{Sessions, decay_fault}

pub record HeartbeatInput : Type 0 where
  pub task_id : ℕ
  pub is_progress : Option Bool
  pub is_blocked : Option Bool
  pub blocked_reason : Option String
  pub blocked_on : Option BlockedOn
  pub eta_sec : Option ℕ

-- human, external_api and upstream_task wait long; agent and null do not.
abbrev pub is_long_block : Option BlockedOn → Bool
is_long_block (some human) = true
is_long_block (some external_api) = true
is_long_block (some upstream_task) = true
is_long_block _ = false

abbrev pub long_block_sec : ℕ
long_block_sec = 172800

-- The eta that was given, else the last one that was given, else the default of the last block.
unfoldable pub timeout_sec : HeartbeatInput → Task → ℕ
timeout_sec input t =
    let short = or_else t.heartbeat_timeout_sec heartbeat_timeout_default in
    let kind_default = if is_long_block t.blocked_on then long_block_sec else short in
    or_else input.eta_sec (or_else t.last_eta_sec kind_default)

unfoldable pub check_delay_sec : HeartbeatInput → ℕ
check_delay_sec input =
    if is_long_block input.blocked_on then or_else input.eta_sec long_block_sec else 0

-- isProgress !== false
abbrev pub is_progress_update : HeartbeatInput → Bool
is_progress_update input = or_else input.is_progress true

-- last_eta_sec changes only with an eta that was given.
unfoldable pub persist_eta : Option ℕ → Option ℕ → Option ℕ
persist_eta none old = old
persist_eta (some e) old = some e

unfoldable pub beat_blocked : ℕ → HeartbeatInput → Task → Task
unfolding check_delay_sec persist_eta
beat_blocked now input t = record t {
  last_heartbeat_at = some now;
  last_progress_at = if is_progress_update input then some now else t.last_progress_at;
  blocked_at = some now;
  blocked_reason = input.blocked_reason;
  blocked_on = input.blocked_on;
  last_eta_sec = persist_eta input.eta_sec t.last_eta_sec;
  next_check_at = some (now + check_delay_sec input);
  version = t.version + 1;
}

-- `timeout` was computed from the row as it was read.
unfoldable pub beat_clear : ℕ → HeartbeatInput → ℕ → Task → Task
unfolding persist_eta
beat_clear now input timeout t = record t {
  last_heartbeat_at = some now;
  last_progress_at = if is_progress_update input then some now else t.last_progress_at;
  escalation_level = if is_progress_update input then 0 else t.escalation_level;
  last_eta_sec = persist_eta input.eta_sec t.last_eta_sec;
  blocked_at = none;
  blocked_reason = none;
  next_check_at = some (now + timeout);
  version = t.version + 1;
}

unfoldable pub beat : ℕ → HeartbeatInput → Task → Board → Sessions → Outcome × Sessions
unfolding update_returning beat_blocked beat_clear timeout_sec
beat now input t b s =
    if or_else input.is_blocked false
    then (update_returning (λ r. r.id == input.task_id) (beat_blocked now input) b, s)
    else (
      update_returning (λ r. r.id == input.task_id) (beat_clear now input (timeout_sec input t)) b,
      if not (str_eq t.kind "subagent") then decay_fault t.to_agent s else s,
    )

-- A task that is not there: null.
unfoldable pub beat_found : ℕ → HeartbeatInput → Board → Sessions → Option Task → Outcome × Sessions
unfolding beat
beat_found now input b s none = ((none, b), s)
beat_found now input b s (some t) = beat now input t b s

unfoldable pub update_heartbeat : ℕ → HeartbeatInput → Board → Sessions → Outcome × Sessions
unfolding beat_found
update_heartbeat now input b s = beat_found now input b s (get_row input.task_id b.tasks)
