-- ===== src/Silences.antt =====
-- The silences of src/silences/index.ts. A time is in milliseconds, and a date that cannot be read
-- is none: no comparison with it is true. A regular expression is the host's: `RegExp` gives the test
-- of a pattern, or none where the pattern is invalid. The meta alerts and the lines of the audit log
-- are effects in the order of the calls. Writing the file succeeds.
pub mod Window
pub mod Tick
pub mod Ends
pub mod Rotation
use threadwork.Prelude.{
  ℕ, zero, suc, ◌-◌, String, Bool, true, false, not, ◌&&◌, ◌||◌, Option, none, some, List, [], ◌∷◌,
  ◌++◌, map, ◌==◌, str_eq, ltb, leb, if◌then◌else◌, or_else, is_some, is_none, any, every, keep,
  find, length,
}
use threadwork.Prelude.Store.{File, missing, corrupt, saved, Store, lookup}

pub data MatcherType : Type 0 where
  absent eq regex : MatcherType
  unknown : String → MatcherType

pub record SilenceMatcher : Type 0 where
  pub label : String
  pub matcher_type : MatcherType
  pub value : Option String

pub record Silence : Type 0 where
  pub id : String
  pub matchers : List SilenceMatcher
  pub starts_at : Option ℕ
  pub ends_at : Option ℕ

-- silences.json: none where it has no array of silences.
abbrev pub SilencesFile : Type 0
SilencesFile = File (Option (List Silence))

-- The labels of an alert that are texts, and is_resolved.
pub record AlertForSilence : Type 0 where
  pub labels : Store String
  pub is_resolved : Option Bool

pub data SilenceError : Type 0 where
  empty_matchers invalid_dates ends_before_start ends_before_now invalid_matcher : SilenceError
  unknown_matcher_type invalid_regex : SilenceError

pub data Effect : Type 0 where
  rejected : String → SilenceError → Effect
  audit_expired : String → Effect
  audit_silenced : String → AlertForSilence → Effect

pub record SilencesEngine : Type 0 where
  pub silences_file : SilencesFile
  pub silences : List Silence

abbrev pub RegExp : Type 0
RegExp = String → Option (String → Bool)

-- a < b, for dates
abbrev pub before : Option ℕ → Option ℕ → Bool
before none b = false
before (some a) none = false
before (some a) (some b) = ltb a b

unfoldable pub regex_error : RegExp → Option String → Option SilenceError
regex_error regexp none = none
regex_error regexp (some pattern) = if is_none (regexp pattern) then some invalid_regex else none

-- A matcher of a known type, once its label and value are there.
unfoldable pub type_error : RegExp → SilenceMatcher → MatcherType → Option SilenceError
unfolding regex_error
type_error regexp m absent = some invalid_matcher
type_error regexp m eq = none
type_error regexp m regex = regex_error regexp m.value
type_error regexp m (unknown name) = some unknown_matcher_type

unfoldable pub matcher_error : RegExp → SilenceMatcher → Option SilenceError
unfolding type_error
matcher_error regexp m =
    if str_eq m.label "" || is_none m.value
    then some invalid_matcher
    else type_error regexp m m.matcher_type

-- The first error of the matchers.
unfoldable pub first_error : RegExp → List SilenceMatcher → Option SilenceError
unfolding matcher_error
first_error regexp [] = none
first_error regexp (m ∷ later) =
    let rest = first_error regexp later in
    elim (matcher_error regexp m) [ none ↦ rest | some err ↦ some err ]

unfoldable pub dates_error : Option ℕ → Option ℕ → ℕ → Option SilenceError
dates_error starts_at ends_at now =
    if is_none ends_at || is_none starts_at
    then some invalid_dates
    else if before ends_at starts_at
    then some ends_before_start
    else if before ends_at (some now)
    then some ends_before_now
    else none

-- The first check that fails.
abbrev pub or_error : Option SilenceError → Option SilenceError → Option SilenceError
or_error none later = later
or_error (some err) later = some err

unfoldable pub validate_silence : RegExp → Silence → ℕ → Option SilenceError
unfolding dates_error first_error
validate_silence regexp s load_time =
    or_error (if length s.matchers == 0 then some empty_matchers else none)
      (or_error (dates_error s.starts_at s.ends_at load_time) (first_error regexp s.matchers))

abbrev pub is_valid : RegExp → ℕ → Silence → Bool
is_valid regexp now s = is_none (validate_silence regexp s now)

-- What the loop over the loaded silences reports.
abbrev pub report : String → Option SilenceError → List Effect
report id none = []
report id (some err) = rejected id err ∷ []

unfoldable pub rejections : RegExp → ℕ → List Silence → List Effect
unfolding validate_silence
rejections regexp now [] = []
rejections regexp now (s ∷ later) =
    report s.id (validate_silence regexp s now) ++ rejections regexp now later

-- The array in the file, or none.
abbrev pub stored : SilencesFile → List Silence
stored missing = []
stored corrupt = []
stored (saved none) = []
stored (saved (some l)) = l

-- Without an array the loops have nothing to go over.
unfoldable pub load_silences : RegExp → ℕ → SilencesEngine → SilencesEngine × List Effect
unfolding validate_silence rejections
load_silences regexp now e =
    let all = stored e.silences_file in
    (record e { silences = keep (is_valid regexp now) all }, rejections regexp now all)

abbrev pub is_expired : ℕ → Silence → Bool
is_expired now s = before s.ends_at (some now)

unfoldable pub expire_loaded : ℕ → List Silence → SilencesEngine → SilencesEngine × List Effect
expire_loaded now all e =
    let active = keep (λ s. not (is_expired now s)) all in
    let expired = keep (is_expired now) all in
    if ltb 0 (length expired)
    then (
      record { silences_file = saved (some active); silences = active },
      map (λ (s : Silence). audit_expired s.id) expired,
    )
    else (record e { silences = active }, [])

unfoldable pub expire_from : ℕ → SilencesFile → SilencesEngine → SilencesEngine × List Effect
unfolding expire_loaded
expire_from now missing e = (e, [])
expire_from now corrupt e = (e, [])
expire_from now (saved none) e = (e, [])
expire_from now (saved (some all)) e = expire_loaded now all e

unfoldable pub expire_silences : ℕ → SilencesEngine → SilencesEngine × List Effect
unfolding expire_from
expire_silences now e = expire_from now e.silences_file e

abbrev pub shown_flag : Option Bool → Option String
shown_flag none = none
shown_flag (some true) = some "true"
shown_flag (some false) = some "false"

unfoldable pub alert_value : AlertForSilence → String → String
unfolding lookup
alert_value alert label =
    or_else
      (if str_eq label "is_resolved"
        then shown_flag alert.is_resolved
        else lookup label alert.labels)
      "(unset)"

abbrev pub tested : Option (String → Bool) → String → Bool
tested none text = false
tested (some test) text = test text

-- alertValue === matcher.value, where the value may be missing
abbrev pub equals : Option String → String → Bool
equals none text = false
equals (some value) text = str_eq text value

unfoldable pub type_matches : RegExp → MatcherType → Option String → String → Bool
type_matches regexp absent value text = false
type_matches regexp eq value text = equals value text
type_matches regexp regex value text = tested (regexp (or_else value "")) text
type_matches regexp (unknown name) value text = false

unfoldable pub matches : RegExp → AlertForSilence → SilenceMatcher → Bool
unfolding type_matches alert_value
matches regexp alert m = type_matches regexp m.matcher_type m.value (alert_value alert m.label)

unfoldable pub is_in_window : ℕ → Silence → Bool
is_in_window now s = not (before (some now) s.starts_at || before s.ends_at (some now))

-- The silence is in its window, and all its matchers match.
unfoldable pub applies : RegExp → ℕ → AlertForSilence → Silence → Bool
unfolding is_in_window matches
applies regexp now alert s = is_in_window now s && every (matches regexp alert) s.matchers

abbrev pub id_of : Option Silence → Option String
id_of none = none
id_of (some s) = some s.id

-- The id of the silence that holds, if one does.
unfoldable pub check : RegExp → AlertForSilence → List Silence → ℕ → Option String
unfolding applies
check regexp alert silences now =
    let first = id_of (find (applies regexp now alert) silences) in
    if or_else alert.is_resolved false then none else first

-- survivors, silenced, and the lines of the audit log
abbrev pub Sifted : Type 0
Sifted = List AlertForSilence × List AlertForSilence × List Effect

abbrev pub sifted : AlertForSilence → Option String → Sifted → Sifted
sifted alert none out = (alert ∷ out.0, out.1, out.2)
sifted alert (some id) out = (out.0, alert ∷ out.1, audit_silenced id alert ∷ out.2)

unfoldable pub sift : RegExp → List Silence → ℕ → List AlertForSilence → Sifted
unfolding check
sift regexp silences now [] = ([], [], [])
sift regexp silences now (alert ∷ later) =
    sifted alert (check regexp alert silences now) (sift regexp silences now later)

-- apply: load, expire, load again, and check each alert
unfoldable pub apply_silences :
    RegExp
    → List AlertForSilence
    → ℕ
    → SilencesEngine
    → (List AlertForSilence × List AlertForSilence) × SilencesEngine × List Effect
unfolding load_silences expire_silences sift
apply_silences regexp alerts now e =
    let loaded = load_silences regexp now e in
    let expired = expire_silences now loaded.0 in
    let active = load_silences regexp now expired.0 in
    let out = sift regexp active.0.silences now alerts in
    ((out.0, out.1), active.0, loaded.1 ++ (expired.1 ++ (active.1 ++ out.2)))

unfoldable pub delete_silence_by_id : String → SilencesEngine → Bool × SilencesEngine
delete_silence_by_id id e =
    let all = stored e.silences_file in
    let left = keep (λ (s : Silence). not (str_eq s.id id)) all in
    if ltb (length left) (length all)
    then (true, record { silences_file = saved (some left); silences = left })
    else (false, e)

unfoldable pub add_valid :
    RegExp
    → Silence
    → ℕ
    → Option SilenceError
    → SilencesEngine
    → Option SilenceError × SilencesEngine × List Effect
unfolding validate_silence
add_valid regexp s now (some err) e = (some err, e, rejected s.id err ∷ [])
add_valid regexp s now none e =
    let all = stored e.silences_file ++ (s ∷ []) in
    (
      none,
      record { silences_file = saved (some all); silences = keep (is_valid regexp now) all },
      [],
    )

-- The error that is answered, or none for ok.
unfoldable pub add_silence :
    RegExp → Silence → ℕ → SilencesEngine → Option SilenceError × SilencesEngine × List Effect
unfolding validate_silence add_valid
add_silence regexp s now e = add_valid regexp s now (validate_silence regexp s now) e

-- The audit log and its generations: number 0 is the log, number i the file with the suffix i.
abbrev pub LogFiles : Type 0
LogFiles = ℕ → Option String

-- renameSync(src, dst), if src exists
unfoldable pub shift : ℕ → LogFiles → LogFiles
shift i files n = elim (files i) [
  | none ↦ files n
  | some content ↦ if n == suc i then some content else if n == i then none else files n
]

-- The loop from the last generation down to the first.
unfoldable pub rotate : ℕ → LogFiles → LogFiles
unfolding shift
rotate zero files = files
rotate (suc i) files = rotate i (shift i files)

unfoldable pub maybe_rotate_audit_log : (String → ℕ) → ℕ → ℕ → LogFiles → LogFiles
unfolding rotate
maybe_rotate_audit_log size_of max_bytes generations files = elim (files 0) [
  | none ↦ files
  | some log ↦ if ltb (size_of log) max_bytes then files else rotate generations files
]
