-- ===== src/Urgency.antt =====
-- The routing by urgency of src/urgency-routing/index.ts: severities, routes, and the critical alerts,
-- which are sent again only after a growing cooldown. Times are in seconds.
pub mod Cooldown
pub mod Severities
use threadwork.Prelude.{
  ℕ, ◌+◌, ◌-◌, String, Bool, true, false, not, Option, none, some, List, [], ◌∷◌, ◌==◌, str_eq, leb,
  if◌then◌else◌, or_else,
}
use threadwork.Prelude.Store.{File, saved, load, Store, lookup, insert, remove}

pub data Severity : Type 0 where
  critical warning info : Severity

-- The pairs of `match` in their order; an alert is a function from keys to values.
pub record SeverityRule : Type 0 where
  pub match_labels : List (String × String)
  pub severity : Severity

pub record SeverityMap : Type 0 where
  pub mappings : List SeverityRule
  pub default_severity : Option Severity

abbrev pub Alert : Type 0
Alert = String → Option String

abbrev pub label : Alert → String → String
label a k = or_else (a k) "(unset)"

-- The inner loop, which stops at the first label that differs.
unfoldable pub all_match : Alert → List (String × String) → Bool
all_match a [] = true
all_match a ((k, v) ∷ rest) =
    let others = all_match a rest in if str_eq (label a k) v then others else false

unfoldable pub first_match : Alert → List SeverityRule → Option Severity
unfolding all_match
first_match a [] = none
first_match a (rule ∷ rest) =
    let later = first_match a rest in
    if all_match a rule.match_labels then some rule.severity else later

unfoldable pub assign_severity : Alert → SeverityMap → Severity
unfolding first_match
assign_severity a m = or_else (first_match a m.mappings) (or_else m.default_severity warning)

pub record RouteResult : Type 0 where
  pub severity : Severity
  pub push_notification : Bool
  pub telegram : Bool
  pub telegram_prefix : Option String
  pub task_board_note : Bool
  pub note_prefix : String

unfoldable pub get_route : Severity → Bool → RouteResult
get_route critical push_ok = record {
  severity = critical;
  push_notification = push_ok;
  telegram = true;
  telegram_prefix = some (if push_ok then "[CRITICAL]" else "[CRITICAL][PUSH-FALLBACK]");
  task_board_note = true;
  note_prefix = "[CRITICAL]";
}
get_route warning push_ok = record {
  severity = warning;
  push_notification = false;
  telegram = true;
  telegram_prefix = none;
  task_board_note = true;
  note_prefix = "[WARNING]";
}
get_route info push_ok = record {
  severity = info;
  push_notification = false;
  telegram = false;
  telegram_prefix = none;
  task_board_note = true;
  note_prefix = "[INFO]";
}

pub record CriticalDedupEntry : Type 0 where
  pub last_emit_at : ℕ
  pub cooldown_sec : ℕ
  pub emit_count : ℕ

-- The router's settings and its file of critical alerts.
pub record Router : Type 0 where
  pub initial_cooldown_sec : ℕ
  pub dedup_file : File (Store CriticalDedupEntry)

-- CRITICAL_BACKOFF_SEQUENCE
abbrev pub backoff_sequence : List ℕ
backoff_sequence = 120 ∷ 240 ∷ 480 ∷ 1800 ∷ []

-- The member after the first that equals x; the last member if there is none.
unfoldable pub next_in : ℕ → ℕ → List ℕ → ℕ
next_in x last [] = last
next_in x last (y ∷ []) = last
next_in x last (y ∷ z ∷ rest) = let later = next_in x last (z ∷ rest) in if y == x then z else later

unfoldable pub next_backoff : ℕ → ℕ
unfolding next_in
next_backoff current = next_in current 1800 backoff_sequence

-- now - last_emit_at >= cooldown_sec over the integers: a clock that went back is in the cooldown.
abbrev pub is_cool : ℕ → CriticalDedupEntry → Bool
is_cool now entry = leb (entry.last_emit_at + entry.cooldown_sec) now

unfoldable pub check_critical_dedup : String → ℕ → Router → Bool
check_critical_dedup fingerprint now r = elim (lookup fingerprint (load r.dedup_file)) [
  | none ↦ false
  | some entry ↦ not (is_cool now entry)
]

unfoldable pub next_entry : ℕ → ℕ → Option CriticalDedupEntry → CriticalDedupEntry
unfolding next_backoff
next_entry initial now none = record { last_emit_at = now; cooldown_sec = initial; emit_count = 1 }
next_entry initial now (some entry) = record {
  last_emit_at = now;
  cooldown_sec = next_backoff entry.cooldown_sec;
  emit_count = entry.emit_count + 1;
}

unfoldable pub record_critical_emit : String → ℕ → Router → Router
unfolding next_entry
record_critical_emit fingerprint now r =
    let state = load r.dedup_file in
    let entry = next_entry r.initial_cooldown_sec now (lookup fingerprint state) in
    record r { dedup_file = saved (insert fingerprint entry state) }

unfoldable pub reset_critical_dedup : String → Router → Router
reset_critical_dedup fingerprint r = elim (lookup fingerprint (load r.dedup_file)) [
  | none ↦ r
  | some entry ↦ record r { dedup_file = saved (remove fingerprint (load r.dedup_file)) }
]

pub record Routed : Type 0 where
  pub emit : Bool
  pub suppressed_by_dedup : Bool
  pub route : RouteResult

unfoldable pub route_critical : String → Bool → ℕ → Router → Routed × Router
unfolding check_critical_dedup get_route record_critical_emit
route_critical fingerprint push_ok now r =
    let suppressed = check_critical_dedup fingerprint now r in
    (
      record {
        emit = not suppressed;
        suppressed_by_dedup = suppressed;
        route = get_route critical push_ok;
      },
      if suppressed then r else record_critical_emit fingerprint now r,
    )

-- DEFAULT_SEVERITY_MAP
abbrev pub default_severity_map : SeverityMap
default_severity_map = record {
  mappings =
      record { match_labels = ("state", "WATCHDOG_DEAD") ∷ []; severity = critical }
      ∷ record {
        match_labels = ("state", "STUCK") ∷ ("reason_class", "RESTART_LOOP") ∷ [];
        severity = critical;
      }
      ∷ record { match_labels = ("state", "STUCK") ∷ []; severity = warning }
      ∷ record { match_labels = ("state", "PARKED_PICKER_STALE") ∷ []; severity = warning }
      ∷ record { match_labels = ("state", "PARKED_PICKER") ∷ []; severity = info }
      ∷ record { match_labels = ("state", "LOOP") ∷ []; severity = warning }
      ∷ [];
  default_severity = some warning;
}
