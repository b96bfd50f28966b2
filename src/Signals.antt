-- ===== src/Signals.antt =====
-- The signals that db.ts (class TaskDB) keeps of its agents: violations of the gates with the
-- quarantine, progress events with their throttle, and the alerts of the watchdog that are not repeated.
-- Date.now() is in milliseconds, and a time of a row in seconds. Rows stand newest first. The hash of a
-- payload is the host's.
pub mod Quarantine
pub mod Repeats
use threadwork.Prelude.{
  ℕ, suc, ◌+◌, ◌-◌, ◌*◌, ◌/◌, max, String, Bool, true, false, not, ◌&&◌, Option, none, some, List,
  [], ◌∷◌, ◌==◌, ltb, leb, str_eq, if◌then◌else◌, or_else, any, keep, find, length,
}
use threadwork.Blackboard.{Flags, is_feature_enabled, take, given}

pub record Violation : Type 0 where
  pub id : ℕ
  pub agent_id : String
  pub task_id : Option ℕ
  pub violation_type : String
  pub detail : String
  pub created_at : ℕ

pub record ProgressInput : Type 0 where
  pub task_id : ℕ
  pub agent_id : String
  pub event_type : String
  pub percent : Option ℕ
  pub activity : Option String
  pub metrics_json : Option String
  pub attempt_id : Option ℕ
  pub detail_ref : Option ℕ

pub record ProgressEvent : Type 0 where
  pub event_id : ℕ
  pub input : ProgressInput
  pub created_at : ℕ

pub record AlertState : Type 0 where
  pub task_id : ℕ
  pub alert_type : String
  pub payload_hash : String
  pub last_alerted_at : ℕ
  pub fire_count : ℕ

-- The tables and, of the process, the times of the last progress events by task.
pub record Signals : Type 0 where
  pub flags : Flags
  pub violations : List Violation
  pub next_violation_id : ℕ
  pub events : List ProgressEvent
  pub next_event_id : ℕ
  pub alerts : List AlertState
  pub throttle_cache : List (ℕ × ℕ)

unfoldable pub record_violation : ℕ → String → String → String → Option ℕ → Signals → ℕ × Signals
record_violation now agent_id violation_type detail task_id s =
    let row : Violation = record {
      id = s.next_violation_id;
      agent_id = agent_id;
      task_id = task_id;
      violation_type = violation_type;
      detail = detail;
      created_at = now;
    } in
    (
      s.next_violation_id,
      record s { violations = row ∷ s.violations; next_violation_id = suc s.next_violation_id },
    )

unfoldable pub get_violations : Option String → Option ℕ → Signals → List Violation
get_violations agent_id last_n s = take (or_else last_n 50) (
    keep
      (λ (v : Violation). given agent_id (λ a. if str_eq a "" then true else str_eq v.agent_id a))
      s.violations)

-- created_at > datetime('now', '-n hours')
abbrev pub is_within : ℕ → ℕ → Violation → Bool
is_within now window_hours v = ltb now (v.created_at + window_hours * 3600)

unfoldable pub get_recent_violation_count : ℕ → String → ℕ → Signals → ℕ
get_recent_violation_count now agent_id window_hours s = length (
    keep (λ (v : Violation). str_eq v.agent_id agent_id && is_within now window_hours v)
      s.violations)

-- The latest of the agent's violations.
unfoldable pub last_violation : String → List Violation → Option ℕ
last_violation agent_id [] = none
last_violation agent_id (v ∷ older) =
    let rest = last_violation agent_id older in
    if str_eq v.agent_id agent_id then some (max v.created_at (or_else rest 0)) else rest

-- More than four hours have passed since.
abbrev pub has_recovered : ℕ → Option ℕ → Bool
has_recovered now_ms none = false
has_recovered now_ms (some last) = ltb (last * 1000 + 14400000) now_ms

unfoldable pub is_quarantined : ℕ → String → Signals → Bool
unfolding is_feature_enabled get_recent_violation_count last_violation
is_quarantined now_ms agent_id s =
    if not (is_feature_enabled "gates_enabled" s.flags)
    then false
    else if ltb (get_recent_violation_count (now_ms / 1000) agent_id 24 s) 5
    then false
    else not (has_recovered now_ms (last_violation agent_id s.violations))

abbrev pub lifecycle_events : List String
lifecycle_events = "started" ∷ "completed" ∷ "failed" ∷ "abandoned" ∷ []

abbrev pub is_lifecycle : String → Bool
is_lifecycle event_type = any (λ e. str_eq e event_type) lifecycle_events

-- The map from tasks to times.
unfoldable pub cached : ℕ → List (ℕ × ℕ) → Option ℕ
cached task_id [] = none
cached task_id (entry ∷ rest) =
    let later = cached task_id rest in if entry.0 == task_id then some entry.1 else later

unfoldable pub set_cached : ℕ → ℕ → List (ℕ × ℕ) → List (ℕ × ℕ)
set_cached task_id now [] = (task_id, now) ∷ []
set_cached task_id now (entry ∷ rest) =
    let later = set_cached task_id now rest in
    if entry.0 == task_id then (task_id, now) ∷ rest else entry ∷ later

pub data Reported : Type 0 where
  progress_disabled : Reported
  throttled : ℕ → Reported
  event_written : ℕ → Reported

unfoldable pub write_event : ℕ → ProgressInput → Signals → Reported × Signals
write_event now_ms input s =
    let row : ProgressEvent = record {
      event_id = s.next_event_id;
      input = input;
      created_at = now_ms / 1000;
    } in
    (
      event_written s.next_event_id,
      record s { events = row ∷ s.events; next_event_id = suc s.next_event_id },
    )

-- Math.ceil of the seconds that are left of the throttle
abbrev pub next_allowed_in_sec : ℕ → ℕ → ℕ
next_allowed_in_sec now_ms last = (last + 30000 - now_ms + 999) / 1000

unfoldable pub report_progress : ℕ → ProgressInput → Signals → Reported × Signals
unfolding is_feature_enabled cached set_cached write_event
report_progress now_ms input s =
    let last = or_else (cached input.task_id s.throttle_cache) 0 in
    let noted : Signals = record s {
      throttle_cache = set_cached input.task_id now_ms s.throttle_cache;
    } in
    if not (is_feature_enabled "progress_events_enabled" s.flags)
    then (progress_disabled, s)
    else if is_lifecycle input.event_type
    then write_event now_ms input s
    else if ltb now_ms (last + 30000)
    then (throttled (next_allowed_in_sec now_ms last), s)
    else write_event now_ms input noted

unfoldable pub get_progress : ℕ → Option ℕ → Option String → Signals → List ProgressEvent
unfolding is_feature_enabled
get_progress task_id last_n event_type s =
    if not (is_feature_enabled "progress_events_enabled" s.flags)
    then []
    else take (or_else last_n 50) (
        keep
          (λ (e : ProgressEvent).
            (e.input.task_id == task_id)
            && given event_type (λ t. if str_eq t "" then true else str_eq e.input.event_type t))
          s.events)

unfoldable pub emit_completion_event : ℕ → ℕ → String → Option ℕ → Signals → Signals
unfolding is_feature_enabled write_event
emit_completion_event now_ms task_id agent_id attempt_id s =
    let input : ProgressInput = record {
      task_id = task_id;
      agent_id = agent_id;
      event_type = "completed";
      percent = some 100;
      activity = some "Task completed";
      metrics_json = none;
      attempt_id = attempt_id;
      detail_ref = none;
    } in
    if not (is_feature_enabled "progress_events_enabled" s.flags)
    then s
    else (write_event now_ms input s).1

-- WHERE task_id = ? AND alert_type = ?
abbrev pub is_alert_of : ℕ → String → AlertState → Bool
is_alert_of task_id alert_type a = (a.task_id == task_id) && str_eq a.alert_type alert_type

-- INSERT … ON CONFLICT (task_id, alert_type) DO UPDATE
unfoldable pub upsert_alert : ℕ → ℕ → String → String → List AlertState → List AlertState
upsert_alert now_ms task_id alert_type hash [] =
    record {
      task_id = task_id;
      alert_type = alert_type;
      payload_hash = hash;
      last_alerted_at = now_ms / 1000;
      fire_count = 1;
    }
    ∷ []
upsert_alert now_ms task_id alert_type hash (a ∷ rest) =
    let later = upsert_alert now_ms task_id alert_type hash rest in
    if is_alert_of task_id alert_type a
    then record a {
      payload_hash = hash;
      last_alerted_at = now_ms / 1000;
      fire_count = a.fire_count + 1;
    }
      ∷ rest
    else a ∷ later

-- The alert was sent with the same payload, less than the cooldown ago.
abbrev pub is_repeat : ℕ → String → ℕ → Option AlertState → Bool
is_repeat now_ms hash cooldown_sec none = false
is_repeat now_ms hash cooldown_sec (some a) =
    str_eq a.payload_hash hash && ltb now_ms (a.last_alerted_at * 1000 + cooldown_sec * 1000)

unfoldable pub should_alert : ℕ → ℕ → String → String → ℕ → Signals → Bool × Signals
unfolding upsert_alert
should_alert now_ms task_id alert_type hash cooldown_sec s =
    if is_repeat now_ms hash cooldown_sec (find (is_alert_of task_id alert_type) s.alerts)
    then (false, s)
    else (true, record s { alerts = upsert_alert now_ms task_id alert_type hash s.alerts })
