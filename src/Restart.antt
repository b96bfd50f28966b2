-- ===== src/Restart.antt =====
-- The restart cap of src/restart-cap/tracker.ts: RestartTracker, which a service runs at its start, and
-- ChildRestartCap, which the watchdog keeps for its children. Times are in seconds.
pub mod Count
pub mod Child
use threadwork.Prelude.{
  ℕ, ◌-◌, ◌≡◌, String, Bool, true, false, not, ◌&&◌, Option, none, some, List, [], ◌∷◌, ◌++◌, ltb,
  leb, if◌then◌else◌, length, keep,
}
use threadwork.Prelude.Store.{File, missing, corrupt, saved, Store, lookup, insert, remove}

pub data LastAction : Type 0 where
  running self_terminated_cap sentinel_unloaded : LastAction

pub record TrackerData : Type 0 where
  pub service : String
  pub restart_timestamps_unix : List ℕ
  pub max_r : ℕ
  pub max_t_sec : ℕ
  pub last_action : LastAction
  pub last_action_at : ℕ

-- The tracker object and its file. A file of an invalid schema is read as one that does not parse.
pub record RestartTracker : Type 0 where
  pub service : String
  pub max_r : ℕ
  pub max_t_sec : ℕ
  pub file : File TrackerData

unfoldable pub default_data : ℕ → RestartTracker → TrackerData
default_data now tr = record {
  service = tr.service;
  restart_timestamps_unix = [];
  max_r = tr.max_r;
  max_t_sec = tr.max_t_sec;
  last_action = running;
  last_action_at = now;
}

unfoldable pub load_tracker : ℕ → RestartTracker → TrackerData
unfolding default_data
load_tracker now tr = elim tr.file [
  | missing ↦ default_data now tr
  | corrupt ↦ default_data now tr
  | saved d ↦ d
]

-- The timestamps in the window, and the future ones, which are dropped.
unfoldable pub filter_window : ℕ → ℕ → List ℕ → List ℕ × List ℕ
filter_window max_t_sec now [] = ([], [])
filter_window max_t_sec now (ts ∷ rest) =
    let (filtered, dropped_future) = filter_window max_t_sec now rest in
    if ltb now ts
    then (filtered, ts ∷ dropped_future)
    else if leb (now - ts) max_t_sec
    then (ts ∷ filtered, dropped_future)
    else (filtered, dropped_future)

pub record CapCheckResult : Type 0 where
  pub tripped : Bool
  pub filtered_count : ℕ
  pub max_r : ℕ
  pub timestamps_after_filter : List ℕ
  pub dropped_future : List ℕ

unfoldable pub check_cap : RestartTracker → TrackerData → ℕ → CapCheckResult
unfolding filter_window
check_cap tr data_in now =
    let (filtered, dropped) = filter_window tr.max_t_sec now data_in.restart_timestamps_unix in
    record {
      tripped = ltb tr.max_r (length filtered);
      filtered_count = length filtered;
      max_r = tr.max_r;
      timestamps_after_filter = filtered;
      dropped_future = dropped;
    }

pub record Verdict : Type 0 where
  pub capped : Bool
  pub filtered_count : Option ℕ

-- The limits come from the file. This start counts, and is saved, whether it is capped or not.
unfoldable pub on_startup : ℕ → RestartTracker → Verdict × RestartTracker
unfolding load_tracker filter_window
on_startup now tr =
    let d = load_tracker now tr in
    let stamps = (filter_window d.max_t_sec now d.restart_timestamps_unix).0 ++ (now ∷ []) in
    let over = ltb d.max_r (length stamps) in
    let next : TrackerData = record {
      service = tr.service;
      restart_timestamps_unix = stamps;
      max_r = d.max_r;
      max_t_sec = d.max_t_sec;
      last_action = if over then self_terminated_cap else running;
      last_action_at = now;
    } in
    (
      record { capped = over; filtered_count = if over then some (length stamps) else none },
      record tr { max_r = d.max_r; max_t_sec = d.max_t_sec; file = saved next },
    )

pub record ChildState : Type 0 where
  pub timestamps : List ℕ
  pub capped : Bool

pub record ChildRestartCap : Type 0 where
  pub max_r : ℕ
  pub max_t_sec : ℕ
  pub state : Store ChildState

pub record ChildVerdict : Type 0 where
  pub capped : Bool
  pub count : ℕ

-- ts <= now && now - ts <= maxTSec
abbrev pub in_window : ℕ → ℕ → ℕ → Bool
in_window max_t_sec now ts = leb ts now && leb (now - ts) max_t_sec

-- A child that has no state yet is given an empty one.
unfoldable pub child_state : String → ChildRestartCap → ChildState
child_state child c = elim (lookup child c.state) [
  | none ↦ record { timestamps = []; capped = false }
  | some s ↦ s
]

-- The child's next state, and the answer. A capped child is left as it is.
unfoldable pub restart_child : ℕ → ℕ → ℕ → ChildState → ChildVerdict × ChildState
restart_child max_r max_t_sec now s =
    let stamps = keep (in_window max_t_sec now) s.timestamps ++ (now ∷ []) in
    if s.capped then (record { capped = true; count = length s.timestamps }, s) else (
      record { capped = ltb max_r (length stamps); count = length stamps },
      record { timestamps = stamps; capped = ltb max_r (length stamps) },
    )

unfoldable pub on_child_restart : String → ℕ → ChildRestartCap → ChildVerdict × ChildRestartCap
unfolding child_state restart_child
on_child_restart child now c =
    let (answer, s) = restart_child c.max_r c.max_t_sec now (child_state child c) in
    (answer, record c { state = insert child s c.state })

unfoldable pub is_capped : String → ChildRestartCap → Bool
is_capped child c = elim (lookup child c.state) [ none ↦ false | some s ↦ s.capped ]

unfoldable pub reset : String → ChildRestartCap → ChildRestartCap
reset child c = record c { state = remove child c.state }
