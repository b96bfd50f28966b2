-- ===== src/Loops.antt =====
-- The loop detector of src/loop-detector/index.ts. SHA-256 and trim, which are the host's, are
-- parameters. Times are in seconds.
pub mod Window
pub mod Trigger
pub mod Relapse
use Prim.Native.String.{◌++◌ as text_append}
use threadwork.Prelude.{
  ℕ, zero, suc, ◌+◌, ◌-◌, String, Bool, true, false, not, ◌&&◌, ◌||◌, Option, none, some, List, [],
  ◌∷◌, ◌++◌, ◌==◌, str_eq, ltb, leb, if◌then◌else◌, or_else, is_none, length, drop, any,
}
use threadwork.Prelude.Store.{File, saved, load, Store, lookup, insert}

pub data ClassifierState : Type 0 where
  alive idle stuck parked_picker parked_picker_stale watchdog_dead loop : ClassifierState

pub data GapReason : Type 0 where
  no_transcript no_write_status : GapReason

pub record HistoryEntry : Type 0 where
  pub tick_unix : ℕ
  pub hash : Option String
  pub gap_reason : Option GapReason

-- The history has the oldest entry first.
pub record AgentLoopState : Type 0 where
  pub history : List HistoryEntry
  pub is_loop : Bool
  pub loop_triggering_hash : Option String

pub record TickInput : Type 0 where
  pub classifier_state : ClassifierState
  pub status_text : Option String
  pub tool_call_signature : Option String
  pub pane_bottom_line : Option String
  pub has_transcript_entry : Option Bool
  pub has_write_status : Option Bool

pub record TickResult : Type 0 where
  pub is_loop : Bool
  pub hash : Option String
  pub recovery : Bool
  pub skipped : Bool

pub record LoopDetector : Type 0 where
  pub state_file : File (Store AgentLoopState)
  pub consecutive_n : ℕ
  pub window_size : ℕ
  pub majority_threshold : ℕ

unfoldable pub compute_loop_hash :
    (String → String) → (String → String) → Option String → Option String → Option String → String
compute_loop_hash sha256 trim status_text tool_call_signature pane_bottom_line =
    let status = trim (or_else status_text "") in
    let tool = or_else tool_call_signature "" in
    let pane = trim (or_else pane_bottom_line "") in
    if str_eq status "" && is_none tool_call_signature
    then "EMPTY"
    else sha256 (text_append status (text_append "|" (text_append tool (text_append "|" pane))))

-- xs.slice(-n), for n above 0
abbrev pub take_last {ℓ} : {A : Type ℓ} → ℕ → List A → List A
take_last n xs = drop (length xs - n) xs

abbrev pub reverse_onto {ℓ} : {A : Type ℓ} → List A → List A → List A
reverse_onto acc [] = acc
reverse_onto acc (x ∷ xs) = reverse_onto (x ∷ acc) xs

abbrev pub reverse {ℓ} : {A : Type ℓ} → List A → List A
reverse xs = reverse_onto [] xs

-- The loop over the history from its newest entry on, which both functions below have: the hash of the
-- run once it is n entries long.
unfoldable pub consecutive_run : ℕ → ℕ → Option String → List HistoryEntry → Option String
consecutive_run n count run [] = none
consecutive_run n count run (entry ∷ older) = elim entry.hash [
  | none ↦ none
  | some h ↦ elim run [
    | none ↦ let rest = consecutive_run n 1 (some h) older in if leb n 1 then some h else rest
    | some r ↦
        let rest = consecutive_run n (suc count) (some r) older in
        if str_eq h r then if leb n (suc count) then some r else rest else none
  ]
]

unfoldable pub hashes : List HistoryEntry → List String
hashes [] = []
hashes (entry ∷ later) = elim entry.hash [ none ↦ hashes later | some h ↦ h ∷ hashes later ]

-- counts.set(h, (counts.get(h) ?? 0) + 1), for each hash in turn
unfoldable pub tally : Store ℕ → List String → Store ℕ
tally counts [] = counts
tally counts (h ∷ hs) = tally (insert h (or_else (lookup h counts) 0 + 1) counts) hs

unfoldable pub has_majority : ℕ → List String → Bool
unfolding tally
has_majority threshold hs =
    if leb threshold (length hs)
    then any (λ (e : String × ℕ). leb threshold e.1) (tally [] hs)
    else false

unfoldable pub check_loop_trigger : LoopDetector → List HistoryEntry → Bool
unfolding consecutive_run hashes has_majority
check_loop_trigger d history = elim (consecutive_run d.consecutive_n 0 none (reverse history)) [
  | some h ↦ true
  | none ↦ has_majority d.majority_threshold (hashes (take_last d.window_size history))
]

-- The first hash with the highest count.
unfoldable pub most_common : Option String → ℕ → Store ℕ → Option String
most_common best count [] = best
most_common best count ((h, n) ∷ rest) =
    if ltb count n then most_common (some h) n rest else most_common best count rest

unfoldable pub get_loop_triggering_hash : LoopDetector → List HistoryEntry → Option String
unfolding consecutive_run hashes tally most_common
get_loop_triggering_hash d history =
    elim (consecutive_run d.consecutive_n 0 none (reverse history)) [
      | some h ↦ some h
      | none ↦ most_common none 0 (tally [] (hashes (take_last d.window_size history)))
    ]

unfoldable pub add_to_history : ℕ → List HistoryEntry → HistoryEntry → List HistoryEntry
add_to_history window_size history entry =
    let updated = history ++ (entry ∷ []) in
    if ltb window_size (length updated) then take_last window_size updated else updated

abbrev pub new_loop_state : AgentLoopState
new_loop_state = record { history = []; is_loop = false; loop_triggering_hash = none }

unfoldable pub loop_state : String → LoopDetector → AgentLoopState
loop_state who d = or_else (lookup who (load d.state_file)) new_loop_state

-- A tick of an agent that is seen without a hash: a gap.
unfoldable pub gap_tick :
    ℕ → GapReason → LoopDetector → AgentLoopState → TickResult × AgentLoopState
unfolding add_to_history
gap_tick now reason d s = (
  record { is_loop = false; hash = none; recovery = false; skipped = false },
  record s {
    history =
        add_to_history d.window_size s.history
          (record { tick_unix = now; hash = none; gap_reason = some reason });
  },
)

-- A tick of an agent in a loop whose hash is t.
unfoldable pub loop_tick : String → List HistoryEntry → String → TickResult × AgentLoopState
loop_tick h history t =
    if not (str_eq h t)
    then (
      record { is_loop = false; hash = some h; recovery = true; skipped = false },
      record { history = history; is_loop = false; loop_triggering_hash = none },
    )
    else (
      record { is_loop = true; hash = some h; recovery = false; skipped = false },
      record { history = history; is_loop = true; loop_triggering_hash = some t },
    )

-- A tick of an agent that is not in a loop, or in one that has no hash.
unfoldable pub free_tick :
    String → List HistoryEntry → LoopDetector → AgentLoopState → TickResult × AgentLoopState
unfolding check_loop_trigger get_loop_triggering_hash
free_tick h history d s =
    let found = check_loop_trigger d history in
    let flag = if found then true else s.is_loop in
    (
      record { is_loop = flag; hash = some h; recovery = false; skipped = false },
      record {
        history = history;
        is_loop = flag;
        loop_triggering_hash =
            if found then get_loop_triggering_hash d history else s.loop_triggering_hash;
      },
    )

unfoldable pub hash_tick : ℕ → String → LoopDetector → AgentLoopState → TickResult × AgentLoopState
unfolding add_to_history loop_tick free_tick
hash_tick now h d s =
    let entry : HistoryEntry = record { tick_unix = now; hash = some h; gap_reason = none } in
    let history = add_to_history d.window_size s.history entry in
    if s.is_loop
    then elim s.loop_triggering_hash [
      | none ↦ free_tick h history d s
      | some t ↦ loop_tick h history t
    ]
    else free_tick h history d s

-- IDLE and the two parked states are left out.
abbrev pub is_excluded : ClassifierState → Bool
is_excluded idle = true
is_excluded parked_picker = true
is_excluded parked_picker_stale = true
is_excluded _ = false

-- The tick of an agent that is not excluded, on its state.
unfoldable pub seen_tick :
    (String → String)
    → (String → String)
    → TickInput
    → ℕ
    → LoopDetector
    → AgentLoopState
    → TickResult × AgentLoopState
unfolding gap_tick compute_loop_hash hash_tick
seen_tick sha256 trim input now d s =
    if not (or_else input.has_transcript_entry true)
    then gap_tick now no_transcript d s
    else if not (or_else input.has_write_status true)
    then gap_tick now no_write_status d s
    else hash_tick now
        (compute_loop_hash sha256 trim input.status_text input.tool_call_signature
          input.pane_bottom_line)
        d s

unfoldable pub tick :
    (String → String)
    → (String → String)
    → String
    → TickInput
    → ℕ
    → LoopDetector
    → TickResult × LoopDetector
unfolding loop_state seen_tick
tick sha256 trim who input now d =
    if is_excluded input.classifier_state
    then (record { is_loop = false; hash = none; recovery = false; skipped = true }, d)
    else let (answer, s) = seen_tick sha256 trim input now d (loop_state who d) in
      (answer, record d { state_file = saved (insert who s (load d.state_file)) })
