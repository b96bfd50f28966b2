-- ===== src/Blackboard.antt =====
-- The blackboard of db.ts (class TaskDB): feature flags, the tables findings and artifacts. Rows stand
-- newest first. The length of a text and the hash of a content are the host's: `length_of` counts
-- UTF-16 units, `size_of` bytes of UTF-8, and `hash` is the beginning of the SHA-256.
pub mod Writing
use Prim.Native.String.{◌++◌ as text_append}
use text.Mathlib.Text.{find?}
use threadwork.Prelude.{
  ℕ, zero, suc, ◌+◌, ◌≡◌, refl, String, Bool, true, false, not, ◌&&◌, ◌||◌, Option, none, some,
  List, [], ◌∷◌, ◌==◌, ltb, str_eq, if◌then◌else◌, or_else, is_some, number_is, find, keep,
}
use threadwork.Prelude.Store.{Store, lookup, insert}

abbrev pub Flags : Type 0
Flags = Store Bool

unfoldable pub is_feature_enabled : String → Flags → Bool
unfolding lookup
is_feature_enabled flag_name flags = or_else (lookup flag_name flags) false

unfoldable pub set_feature_flag : String → Bool → Flags → Flags
unfolding insert
set_feature_flag flag_name enabled flags = insert flag_name enabled flags

-- What a writer gives.
pub record FindingInput : Type 0 where
  pub task_id : ℕ
  pub finding_type : String
  pub summary : String
  pub agent_id : String
  pub attempt_id : Option ℕ
  pub parent_agent_id : Option String
  pub status : Option String
  pub is_final : Option Bool
  pub metrics_json : Option String
  pub refs_json : Option String
  pub metadata_json : Option String
  pub priority : Option String
  pub expires_at : Option String

pub record Finding : Type 0 where
  pub finding_id : ℕ
  pub task_id : ℕ
  pub attempt_id : Option ℕ
  pub agent_id : String
  pub parent_agent_id : Option String
  pub finding_type : String
  pub summary : String
  pub status : String
  pub is_final : Bool
  pub metrics_json : Option String
  pub refs_json : Option String
  pub metadata_json : Option String
  pub content_hash : String
  pub priority : String
  pub expires_at : Option String
  pub created_at : ℕ

pub record ArtifactInput : Type 0 where
  pub task_id : ℕ
  pub content : String
  pub agent_id : String
  pub mime_type : Option String
  pub attempt_id : Option ℕ
  pub finding_id : Option ℕ
  pub expires_at : Option String

pub record Artifact : Type 0 where
  pub artifact_id : ℕ
  pub task_id : ℕ
  pub finding_id : Option ℕ
  pub attempt_id : Option ℕ
  pub agent_id : String
  pub uri : String
  pub mime_type : String
  pub size_bytes : ℕ
  pub content_hash : String
  pub expires_at : Option String

-- The tables, with the next keys.
pub record Blackboard : Type 0 where
  pub flags : Flags
  pub findings : List Finding
  pub next_finding_id : ℕ
  pub artifacts : List Artifact
  pub next_artifact_id : ℕ

pub data Written : Type 0 where
  blackboard_disabled : Written
  summary_too_long : Written
  status_refused : Written
  finding_written : ℕ → Written

-- column = ? where either side may be NULL
abbrev pub column_is : Option ℕ → Option ℕ → Bool
column_is column none = false
column_is column (some n) = number_is column n

-- WHERE task_id = ? AND attempt_id = ? AND content_hash = ?
unfoldable pub is_duplicate : FindingInput → String → Finding → Bool
is_duplicate input content_hash f =
    (f.task_id == input.task_id)
    && column_is f.attempt_id input.attempt_id
    && str_eq f.content_hash content_hash

unfoldable pub finding_row : ℕ → ℕ → FindingInput → String → Finding
finding_row now id input content_hash = record {
  finding_id = id;
  task_id = input.task_id;
  attempt_id = input.attempt_id;
  agent_id = input.agent_id;
  parent_agent_id = input.parent_agent_id;
  finding_type = input.finding_type;
  summary = input.summary;
  status = or_else input.status "draft";
  is_final = or_else input.is_final false;
  metrics_json = input.metrics_json;
  refs_json = input.refs_json;
  metadata_json = input.metadata_json;
  content_hash = content_hash;
  priority = or_else input.priority "normal";
  expires_at = input.expires_at;
  created_at = now;
}

-- CHECK(status IN ('draft', 'published', 'superseded'))
unfoldable pub is_finding_status : String → Bool
is_finding_status s = str_eq s "draft" || str_eq s "published" || str_eq s "superseded"

-- The row that was found, if one was. An INSERT that fails the CHECK throws.
unfoldable pub insert_finding :
    ℕ → FindingInput → String → Option Finding → Blackboard → Written × Blackboard
unfolding finding_row is_finding_status
insert_finding now input content_hash (some existing) b = (finding_written existing.finding_id, b)
insert_finding now input content_hash none b =
    let row = finding_row now b.next_finding_id input content_hash in
    if is_finding_status row.status
    then (
      finding_written b.next_finding_id,
      record b { findings = row ∷ b.findings; next_finding_id = suc b.next_finding_id },
    )
    else (status_refused, b)

unfoldable pub write_finding :
    (String → ℕ) → (String → String) → ℕ → FindingInput → Blackboard → Written × Blackboard
unfolding is_feature_enabled is_duplicate insert_finding
write_finding length_of hash now input b =
    let existing = find (is_duplicate input (hash input.summary)) b.findings in
    let out = insert_finding now input (hash input.summary) existing b in
    if not (is_feature_enabled "blackboard_enabled" b.flags)
    then (blackboard_disabled, b)
    else if ltb 1000 (length_of input.summary)
    then (summary_too_long, b)
    else out

-- LIMIT ?
abbrev pub take {ℓ} : {A : Type ℓ} → ℕ → List A → List A
take zero xs = []
take (suc n) [] = []
take (suc n) (x ∷ xs) = x ∷ take n xs

-- A condition that is there only where the value is.
abbrev pub given {ℓ} : {A : Type ℓ} → Option A → (A → Bool) → Bool
given none p = true
given (some a) p = p a

abbrev pub same_flag : Bool → Bool → Bool
same_flag true b = b
same_flag false b = not b

-- An empty finding type is no condition.
unfoldable pub is_wanted : ℕ → Option String → Option Bool → Finding → Bool
is_wanted task_id finding_type is_final f =
    (f.task_id == task_id)
    && given finding_type (λ t. if str_eq t "" then true else str_eq f.finding_type t)
    && given is_final (λ b. same_flag b f.is_final)

-- Rows stand newest first, as ORDER BY created_at DESC has them while the clock does not go back.
unfoldable pub read_findings :
    ℕ → Option String → Option Bool → Option ℕ → Blackboard → List Finding
unfolding is_feature_enabled is_wanted
read_findings task_id finding_type is_final limit b =
    if not (is_feature_enabled "blackboard_enabled" b.flags)
    then []
    else take (or_else limit 50) (keep (is_wanted task_id finding_type is_final) b.findings)

abbrev pub with_artifacts : List Artifact → Option Finding → Option (Finding × List Artifact)
with_artifacts artifacts none = none
with_artifacts artifacts (some f) =
    some (f, keep (λ (a : Artifact). number_is a.finding_id f.finding_id) artifacts)

unfoldable pub read_finding_raw : ℕ → Blackboard → Option (Finding × List Artifact)
unfolding is_feature_enabled
read_finding_raw finding_id b =
    if not (is_feature_enabled "blackboard_enabled" b.flags)
    then none
    else with_artifacts b.artifacts (find (λ (f : Finding). f.finding_id == finding_id) b.findings)

abbrev pub includes : String → String → Bool
includes text part = is_some (find? text part)

unfoldable pub extension_of : Option String → String
extension_of mime_type =
    if includes (or_else mime_type "text/plain") "json"
    then ".json"
    else if includes (or_else mime_type "") "html"
    then ".html"
    else ".txt"

-- `path` gives the file for a task and a file name, and `shown` a number in digits. The file is written
-- with the content; the uri is set once the key is known.
unfoldable pub write_artifact :
    (String → ℕ)
    → (String → String)
    → (ℕ → String → String)
    → (ℕ → String)
    → ArtifactInput
    → Blackboard
    → Option (ℕ × String) × Blackboard
unfolding is_feature_enabled extension_of
write_artifact size_of hash path shown input b =
    let id = b.next_artifact_id in
    let uri = path input.task_id (text_append (shown id) (extension_of input.mime_type)) in
    let row : Artifact = record {
      artifact_id = id;
      task_id = input.task_id;
      finding_id = input.finding_id;
      attempt_id = input.attempt_id;
      agent_id = input.agent_id;
      uri = uri;
      mime_type = or_else input.mime_type "text/plain";
      size_bytes = size_of input.content;
      content_hash = hash input.content;
      expires_at = input.expires_at;
    } in
    if not (is_feature_enabled "blackboard_enabled" b.flags)
    then (none, b)
    else (some (id, uri), record b { artifacts = row ∷ b.artifacts; next_artifact_id = suc id })
