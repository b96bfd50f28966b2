-- ===== src/Dedup.antt =====
-- The deduplication of alerts of src/dedup/fingerprint.ts (class DedupEngine). SHA-1 is a parameter.
-- Wall-clock times are in seconds; the time since the start of the process is kept in milliseconds,
-- of which the source stores the thousandth part. The messages are given by what they name.
pub mod Uptime
pub mod Windows
use Prim.Native.String.{◌++◌ as text_append}
use threadwork.Prelude.{
  ℕ, ◌+◌, ◌-◌, ◌%◌, String, Bool, true, false, not, ◌&&◌, ◌||◌, Option, none, some, List, [], ◌∷◌,
  ◌==◌, str_eq, ltb, leb, if◌then◌else◌, or_else, any, map,
}
use threadwork.Prelude.Store.{File, saved, load, Store, lookup, insert, remove}

pub record AlertInput : Type 0 where
  pub agent_name : String
  pub state : String
  pub reason_class : String
  pub full_reason_text : Option String

pub record DedupEntry : Type 0 where
  pub fingerprint : String
  pub agent_name : String
  pub state : String
  pub last_emit_at_wallclock : ℕ
  pub last_emit_at_monotonic : ℕ
  pub suppress_count : ℕ
  pub first_emit_at : ℕ

-- A fingerprint, its number of suppressions, and the time of its first emission.
pub record Summary : Type 0 where
  pub fingerprint : String
  pub suppress_count : ℕ
  pub first_emit_at : ℕ

pub record CheckResult : Type 0 where
  pub suppressed : Bool
  pub meta_alert : Option Summary
  pub bypass : Bool
  pub flush_summaries : List Summary

-- `env_cooldown` is the number that the environment variable parses to.
pub record DedupEngine : Type 0 where
  pub dedup_file : File (Store DedupEntry)
  pub process_start_ms : ℕ
  pub env_cooldown : Option ℕ
  pub cooldown_override : Option ℕ

-- KNOWN_REASON_CLASSES
abbrev pub known_reason_classes : List String
known_reason_classes = "PICKER_PARK" ∷ "IDLE_TIMEOUT" ∷ "TMUX_DEAD" ∷ "LOG_STALE" ∷ []

abbrev bar : String → String → String
bar a b = text_append a (text_append "|" b)

unfoldable pub fingerprint_of : (String → String) → AlertInput → String
fingerprint_of sha1 a = sha1 (
    if any (λ known. str_eq known a.reason_class) known_reason_classes
    then bar a.agent_name (bar a.state a.reason_class)
    else bar a.agent_name
        (bar a.state (text_append "RAW:" (or_else a.full_reason_text a.reason_class))))

unfoldable pub get_cooldown_sec : DedupEngine → ℕ
get_cooldown_sec d = elim d.env_cooldown [
  | none ↦ or_else d.cooldown_override 1800
  | some parsed ↦ if ltb 0 parsed then parsed else or_else d.cooldown_override 1800
]

-- wallDelta < 0 || wallDelta > 86400, over the integers.
abbrev pub is_skewed : ℕ → DedupEntry → Bool
is_skewed now e = ltb now e.last_emit_at_wallclock || ltb (e.last_emit_at_wallclock + 86400) now

-- wallDelta < cooldown
abbrev pub is_recent : ℕ → ℕ → DedupEntry → Bool
is_recent cooldown now e = ltb now (e.last_emit_at_wallclock + cooldown)

-- monoDelta >= 0
abbrev pub is_later_in_process : ℕ → DedupEngine → DedupEntry → Bool
is_later_in_process now_ms d e = leb (d.process_start_ms + e.last_emit_at_monotonic) now_ms

abbrev pub passed : CheckResult
passed = record { suppressed = false; meta_alert = none; bypass = false; flush_summaries = [] }

unfoldable pub check_entry : ℕ → ℕ → DedupEngine → DedupEntry → CheckResult
unfolding get_cooldown_sec
check_entry now now_ms d e =
    let next = e.suppress_count + 1 in
    if is_skewed now e
    then passed
    else if is_recent (get_cooldown_sec d) now e && is_later_in_process now_ms d e
    then record passed {
      suppressed = true;
      meta_alert =
          if (next % 12) == 0
          then some (record {
            fingerprint = e.fingerprint;
            suppress_count = next;
            first_emit_at = e.first_emit_at;
          })
          else none;
    }
    else passed

unfoldable pub check : String → ℕ → ℕ → DedupEngine → CheckResult
unfolding check_entry
check fp now now_ms d = elim (lookup fp (load d.dedup_file)) [
  | none ↦ passed
  | some e ↦ check_entry now now_ms d e
]

abbrev pub new_entry : String → AlertInput → ℕ → ℕ → DedupEngine → DedupEntry
new_entry fp a now now_ms d = record {
  fingerprint = fp;
  agent_name = a.agent_name;
  state = a.state;
  last_emit_at_wallclock = now;
  last_emit_at_monotonic = now_ms - d.process_start_ms;
  suppress_count = 0;
  first_emit_at = now;
}

unfoldable pub recorded :
    String
    → AlertInput
    → ℕ
    → ℕ
    → DedupEngine
    → Option DedupEntry
    → Store DedupEntry
    → Store DedupEntry
unfolding get_cooldown_sec
recorded fp a now now_ms d none state = insert fp (new_entry fp a now now_ms d) state
recorded fp a now now_ms d (some e) state =
    if not (is_recent (get_cooldown_sec d) now e) || is_skewed now e
    then insert fp (new_entry fp a now now_ms d) state
    else state

unfoldable pub record_emission : String → AlertInput → ℕ → ℕ → DedupEngine → DedupEngine
unfolding recorded
record_emission fp a now now_ms d =
    let state = load d.dedup_file in
    record d { dedup_file = saved (recorded fp a now now_ms d (lookup fp state) state) }

unfoldable pub record_suppression : String → DedupEngine → DedupEngine
record_suppression fp d = elim (lookup fp (load d.dedup_file)) [
  | none ↦ d
  | some e ↦ record d {
    dedup_file =
        saved (insert fp (record e { suppress_count = e.suppress_count + 1 }) (load d.dedup_file));
  }
]

-- The entries of the agent with another state.
unfoldable pub stale_entries : AlertInput → Store DedupEntry → List DedupEntry
stale_entries a [] = []
stale_entries a ((k, e) ∷ rest) =
    let later = stale_entries a rest in
    if str_eq e.agent_name a.agent_name && not (str_eq e.state a.state) then e ∷ later else later

unfoldable pub flushed : List DedupEntry → List Summary
flushed [] = []
flushed (e ∷ rest) =
    let later = flushed rest in
    if ltb 0 e.suppress_count
    then record {
      fingerprint = e.fingerprint;
      suppress_count = e.suppress_count;
      first_emit_at = e.first_emit_at;
    }
      ∷ later
    else later

unfoldable pub drop_entries : List DedupEntry → Store DedupEntry → Store DedupEntry
drop_entries [] state = state
drop_entries (e ∷ rest) state = drop_entries rest (remove e.fingerprint state)

pub record Transition : Type 0 where
  pub bypass : Bool
  pub flush_summaries : List Summary

unfoldable pub transition_of : List DedupEntry → DedupEngine → Transition × DedupEngine
unfolding flushed drop_entries
transition_of [] d = (record { bypass = false; flush_summaries = [] }, d)
transition_of (e ∷ rest) d = (
  record { bypass = true; flush_summaries = flushed (e ∷ rest) },
  record d { dedup_file = saved (drop_entries (e ∷ rest) (load d.dedup_file)) },
)

unfoldable pub check_state_transition : AlertInput → DedupEngine → Transition × DedupEngine
unfolding stale_entries transition_of
check_state_transition a d = transition_of (stale_entries a (load d.dedup_file)) d

-- What follows the check of the transition: a transition is always sent.
unfoldable pub evaluate_after :
    String → AlertInput → ℕ → ℕ → Transition × DedupEngine → CheckResult × DedupEngine
unfolding check record_emission record_suppression
evaluate_after fp a now now_ms (t, d) =
    let answer = check fp now now_ms d in
    if t.bypass
    then (
      record passed { bypass = true; flush_summaries = t.flush_summaries },
      record_emission fp a now now_ms d,
    )
    else (
      answer,
      if not answer.suppressed then record_emission fp a now now_ms d else record_suppression fp d,
    )

unfoldable pub evaluate :
    (String → String) → AlertInput → ℕ → ℕ → DedupEngine → CheckResult × DedupEngine
unfolding fingerprint_of check_state_transition evaluate_after
evaluate sha1 a now now_ms d =
    evaluate_after (fingerprint_of sha1 a) a now now_ms (check_state_transition a d)
