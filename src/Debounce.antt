-- ===== src/Debounce.antt =====
-- The nudge debounce of src/debounce.ts: the table tw_nudge_debounce, one row for each agent.
-- Date.now() is in milliseconds, and datetime('now') is the same time in whole seconds. updated_at is
-- left out, and the window is a whole number of seconds.
pub mod Counts
pub mod Spacing
use threadwork.Prelude.{
  ℕ, ◌+◌, ◌-◌, ◌*◌, ◌/◌, String, Bool, true, false, not, ◌&&◌, ◌||◌, Option, none, some, List, [],
  ◌∷◌, ◌==◌, str_eq, ltb, leb, if◌then◌else◌, or_else,
}
use threadwork.Prelude.Store.{Store, lookup, insert}

pub data Reason : Type 0 where
  disabled first window_elapsed urgent_bypass debounced : Reason

pub record TryNudgeResult : Type 0 where
  pub should_fire : Bool
  pub pending_count : ℕ
  pub reason : Reason
  pub window_remaining_ms : Option ℕ

pub record DebounceConfig : Type 0 where
  pub window_sec : ℕ
  pub enabled : Bool

pub record DebounceRow : Type 0 where
  pub last_nudged_at : Option ℕ
  pub pending_count : ℕ
  pub last_urgency : String

abbrev pub NudgeDebounce : Type 0
NudgeDebounce = Store DebounceRow

-- The rank of an urgency, which is normal where it is not known.
unfoldable pub rank_urgency : String → ℕ
rank_urgency u =
    if str_eq u "low"
    then 0
    else if str_eq u "normal"
    then 1
    else if str_eq u "high"
    then 2
    else if str_eq u "urgent"
    then 3
    else 1

unfoldable pub next_urgency : String → String → String
unfolding rank_urgency
next_urgency urgency last_urgency =
    if ltb (rank_urgency last_urgency) (rank_urgency urgency) then urgency else last_urgency

abbrev pub with_pending : String → DebounceRow → DebounceRow
with_pending urgency r = record r {
  pending_count = r.pending_count + 1;
  last_urgency = next_urgency urgency r.last_urgency;
}

unfoldable pub record_row : String → String → Option DebounceRow → NudgeDebounce → NudgeDebounce
unfolding insert next_urgency
record_row agent urgency none t =
    insert agent (record { last_nudged_at = none; pending_count = 1; last_urgency = urgency }) t
record_row agent urgency (some r) t = insert agent (with_pending urgency r) t

unfoldable pub record_pending_event :
    DebounceConfig → String → String → NudgeDebounce → NudgeDebounce
unfolding record_row lookup
record_pending_event cfg agent urgency t =
    if not cfg.enabled then t else record_row agent urgency (lookup agent t) t

-- The time of the last nudge in milliseconds, and 0 without one.
abbrev pub last_nudged_ms : DebounceRow → ℕ
last_nudged_ms r = or_else r.last_nudged_at 0 * 1000

-- now - last >= window, for times of which either may be the later
abbrev pub is_window_elapsed : DebounceConfig → ℕ → DebounceRow → Bool
is_window_elapsed cfg now r =
    (last_nudged_ms r == 0) || leb (last_nudged_ms r + cfg.window_sec * 1000) now

abbrev pub fired_row : ℕ → String → DebounceRow
fired_row now urgency = record {
  last_nudged_at = some (now / 1000);
  pending_count = 0;
  last_urgency = urgency;
}

abbrev pub fire_reason : Bool → Bool → ℕ → Reason
fire_reason urgent elapsed last =
    if urgent && not elapsed then urgent_bypass else if last == 0 then first else window_elapsed

unfoldable pub nudge_row :
    DebounceConfig
    → String
    → String
    → ℕ
    → Option DebounceRow
    → NudgeDebounce
    → TryNudgeResult × NudgeDebounce
unfolding insert next_urgency
nudge_row cfg agent urgency now none t = (
  record { should_fire = true; pending_count = 1; reason = first; window_remaining_ms = none },
  insert agent (fired_row now urgency) t,
)
nudge_row cfg agent urgency now (some r) t =
    let elapsed = is_window_elapsed cfg now r in
    let urgent = str_eq urgency "urgent" in
    if elapsed || urgent
    then (
      record {
        should_fire = true;
        pending_count = r.pending_count + 1;
        reason = fire_reason urgent elapsed (last_nudged_ms r);
        window_remaining_ms = none;
      },
      insert agent (fired_row now urgency) t,
    )
    else (
      record {
        should_fire = false;
        pending_count = r.pending_count + 1;
        reason = debounced;
        window_remaining_ms = some (last_nudged_ms r + cfg.window_sec * 1000 - now);
      },
      insert agent (with_pending urgency r) t,
    )

abbrev pub pass_through : TryNudgeResult
pass_through = record {
  should_fire = true;
  pending_count = 0;
  reason = disabled;
  window_remaining_ms = none;
}

unfoldable pub try_nudge :
    DebounceConfig → String → String → ℕ → NudgeDebounce → TryNudgeResult × NudgeDebounce
unfolding nudge_row lookup
try_nudge cfg agent urgency now t =
    if not cfg.enabled
    then (pass_through, t)
    else nudge_row cfg agent urgency now (lookup agent t) t
