-- ===== src/Picker.antt =====
-- The classifier of parked pickers of src/parked-picker-classifier.ts. A time is in milliseconds, as
-- Date reads it. `cut` is the host's slice(0, 200), and a line of the log of unrecognized pickers is
-- an effect. Writing the log succeeds.
pub mod Texts
pub mod Entry
pub mod Reload
use threadwork.Prelude.{
  ℕ, ◌+◌, ◌-◌, ◌*◌, String, Bool, true, false, not, ◌&&◌, ◌||◌, Option, none, some, List, [], ◌∷◌,
  ◌==◌, str_eq, leb, if◌then◌else◌, or_else, any, find, length, drop,
}
use threadwork.Prelude.Store.{Store, lookup, insert, remove}
use Texts.{split_lines, join, includes, trim}

pub data PickerSubtype : Type 0 where
  tool_permission_prompt plan_mode_confirm other : PickerSubtype

pub record PickerSignature : Type 0 where
  pub id : String
  pub picker_subtype : PickerSubtype
  pub patterns : List String

-- picker-signatures.json with its mtime.
pub data SignaturesFile : Type 0 where
  absent : SignaturesFile
  malformed : ℕ → SignaturesFile
  readable : ℕ → List PickerSignature → SignaturesFile

pub data Reported : Type 0 where
  parked_picker parked_picker_stale : Reported

pub record ParkedPickerState : Type 0 where
  pub state : Option Reported
  pub picker_subtype : Option PickerSubtype
  pub state_entered_at : Option ℕ
  pub matched_snippet : Option String
  pub agent : String

pub record AgentPickerState : Type 0 where
  pub state_entered_at : ℕ
  pub picker_subtype : PickerSubtype
  pub stale_fired : Bool

pub record ParkedPickerClassifier : Type 0 where
  pub signatures_file : SignaturesFile
  pub stale_ttl_sec : ℕ
  pub signatures : List PickerSignature
  pub signatures_mtime : ℕ
  pub agent_states : Store AgentPickerState

pub data Effect : Type 0 where
  log_other : String → String → ℕ → Effect

unfoldable pub reload_from : SignaturesFile → ParkedPickerClassifier → ParkedPickerClassifier
reload_from absent c = record c { signatures = [] }
reload_from (malformed mtime) c = c
reload_from (readable mtime signatures) c =
    if mtime == c.signatures_mtime
    then c
    else record c { signatures = signatures; signatures_mtime = mtime }

unfoldable pub reload_signatures : ParkedPickerClassifier → ParkedPickerClassifier
unfolding reload_from
reload_signatures c = reload_from c.signatures_file c

unfoldable pub force_reload : ParkedPickerClassifier → ParkedPickerClassifier
unfolding reload_signatures
force_reload c = reload_signatures (record c { signatures_mtime = 0 })

abbrev pub prompt_markers : List String
prompt_markers =
    "❯" ∷ "Allow Claude" ∷ "Allow the following tool" ∷ "Do you want to proceed"
    ∷ "Execute the plan?" ∷ "Approve plan" ∷ "[Y/n]" ∷ "[y/N]" ∷ "Yes / No" ∷ "(y/n)" ∷ []

-- lines.slice(-5)
unfoldable pub last_lines : String → List String
last_lines pane = let lines = split_lines pane in drop (length lines - 5) lines

unfoldable pub has_active_prompt : String → Bool
unfolding last_lines
has_active_prompt pane =
    if str_eq (trim pane) ""
    then false
    else any (includes (join "\n" (last_lines pane))) prompt_markers

-- The pattern of the signature that is in the pane.
abbrev pub match_of : PickerSubtype → Option String → Option (PickerSubtype × String)
match_of subtype none = none
match_of subtype (some pattern) = some (subtype, pattern)

-- The first pattern that is in the pane, signature by signature.
unfoldable pub match_signatures : List PickerSignature → String → Option (PickerSubtype × String)
match_signatures [] pane = none
match_signatures (sig ∷ later) pane =
    let rest = match_signatures later pane in
    elim (match_of sig.picker_subtype (find (includes pane) sig.patterns)) [
      | some m ↦ some m
      | none ↦ rest
    ]

-- An unrecognized picker is logged.
unfoldable pub recognized :
    (String → String)
    → String
    → String
    → ℕ
    → Option (PickerSubtype × String)
    → (PickerSubtype × String) × List Effect
unfolding last_lines
recognized cut agent pane now (some m) = (m, [])
recognized cut agent pane now none =
    let snippet = cut (trim (join " " (last_lines pane))) in
    ((other, snippet), log_other agent snippet now ∷ [])

abbrev pub parked : Reported → AgentPickerState → String → String → ParkedPickerState
parked reported s snippet agent = record {
  state = some reported;
  picker_subtype = some s.picker_subtype;
  state_entered_at = some s.state_entered_at;
  matched_snippet = some snippet;
  agent = agent;
}

abbrev pub not_parked : String → ParkedPickerState
not_parked agent = record {
  state = none;
  picker_subtype = none;
  state_entered_at = none;
  matched_snippet = none;
  agent = agent;
}

abbrev pub is_due : ℕ → ℕ → AgentPickerState → Bool
is_due ttl now s = leb (s.state_entered_at + ttl * 1000) now

-- The state of the agent, if it has been seen at the picker before.
unfoldable pub sighted :
    String
    → PickerSubtype × String
    → ℕ
    → Option AgentPickerState
    → ParkedPickerClassifier
    → ParkedPickerState × ParkedPickerClassifier
unfolding insert
sighted agent m now none c =
    let s : AgentPickerState = record {
      state_entered_at = now;
      picker_subtype = m.0;
      stale_fired = false;
    } in
    (parked parked_picker s m.1 agent, record c { agent_states = insert agent s c.agent_states })
sighted agent m now (some s) c =
    let fired : AgentPickerState = record s { stale_fired = true } in
    let after : ParkedPickerClassifier = record c {
      agent_states = insert agent fired c.agent_states;
    } in
    if is_due c.stale_ttl_sec now s
    then (
      parked (if not s.stale_fired then parked_picker_stale else parked_picker) s m.1 agent,
      after,
    )
    else (parked parked_picker s m.1 agent, c)

unfoldable pub clear_agent_state : String → ParkedPickerClassifier → ParkedPickerClassifier
unfolding remove
clear_agent_state agent c = record c { agent_states = remove agent c.agent_states }

-- classify with an active prompt, once the signatures have been loaded.
unfoldable pub classify_prompt :
    (String → String)
    → String
    → String
    → ℕ
    → ParkedPickerClassifier
    → (ParkedPickerState × ParkedPickerClassifier) × List Effect
unfolding match_signatures recognized sighted lookup
classify_prompt cut agent pane now c =
    let found = recognized cut agent pane now (match_signatures c.signatures pane) in
    (sighted agent found.0 now (lookup agent c.agent_states) c, found.1)

unfoldable pub classify :
    (String → String)
    → String
    → String
    → ℕ
    → ParkedPickerClassifier
    → (ParkedPickerState × ParkedPickerClassifier) × List Effect
unfolding reload_signatures has_active_prompt clear_agent_state classify_prompt
classify cut agent pane now c =
    let loaded = reload_signatures c in
    if not (has_active_prompt pane)
    then ((not_parked agent, clear_agent_state agent loaded), [])
    else classify_prompt cut agent pane now loaded

abbrev pub entered_at : Option AgentPickerState → Option ℕ
entered_at none = none
entered_at (some s) = some s.state_entered_at

unfoldable pub get_agent_state_entered_at : String → ParkedPickerClassifier → Option ℕ
unfolding lookup
get_agent_state_entered_at agent c = entered_at (lookup agent c.agent_states)
