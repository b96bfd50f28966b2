-- ===== src/Grouping.antt =====
-- The grouping engine of src/grouping/index.ts. Times are in seconds. Of a message its texts and
-- group_age_sec, which is the time of the tick less first_stuck_at, are left out; writing a dump file
-- succeeds, and the files are the list of their names.
pub mod Members
pub mod Owed
pub mod Calls
pub mod Ticks
pub mod Promptness
pub mod Keys
pub mod Quiet
pub mod Dumps
use Prim.Native.String.{◌++◌ as text_append, compare as text_compare}
use text.Mathlib.Text.{is_lt}
use threadwork.Prelude.{
  ℕ, ◌+◌, ◌-◌, String, Bool, true, false, not, ◌&&◌, ◌||◌, Option, none, some, List, [], ◌∷◌, ◌++◌,
  map, max, str_eq, ltb, leb, if◌then◌else◌, or_else, any, keep, length, drop, ◌==◌,
}
use threadwork.Prelude.Store.{Store, lookup, insert}

pub record AlertInput : Type 0 where
  pub agent : String
  pub state : String
  pub reason_class : String
  pub severity : String

pub record GroupMessage : Type 0 where
  pub group_key : String
  pub state : String
  pub reason_class : String
  pub severity : String
  pub agents : List String
  pub first_stuck_at : ℕ
  pub is_resolved : Bool

pub record MemberEntry : Type 0 where
  pub agent : String
  pub first_seen_at : ℕ
  pub last_seen_at : ℕ
  pub is_active : Bool
  pub all_clear_since : Option ℕ

pub record GroupState : Type 0 where
  pub group_key : String
  pub state : String
  pub reason_class : String
  pub severity : String
  pub members : Store MemberEntry
  pub created_at : ℕ
  pub last_flushed_at : ℕ
  pub has_been_flushed : Bool
  pub has_pending_new_member : Bool
  pub all_clear_at : Option ℕ

pub record GroupingEngine : Type 0 where
  pub group_wait_sec : ℕ
  pub group_interval_sec : ℕ
  pub repeat_interval_sec : ℕ
  pub resolved_grace_sec : ℕ
  pub groups : Store GroupState

unfoldable pub compute_group_key : String → String → String → String
compute_group_key state reason_class severity =
    text_append state (text_append "::" (text_append reason_class (text_append "::" severity)))

unfoldable pub key_of : AlertInput → String
unfolding compute_group_key
key_of alert = compute_group_key alert.state alert.reason_class alert.severity

unfoldable pub new_group : AlertInput → ℕ → GroupState
unfolding key_of
new_group alert now = record {
  group_key = key_of alert;
  state = alert.state;
  reason_class = alert.reason_class;
  severity = alert.severity;
  members = [];
  created_at = now;
  last_flushed_at = 0;
  has_been_flushed = false;
  has_pending_new_member = false;
  all_clear_at = none;
}

abbrev pub new_member : String → ℕ → MemberEntry
new_member agent now = record {
  agent = agent;
  first_seen_at = now;
  last_seen_at = now;
  is_active = true;
  all_clear_since = none;
}

abbrev pub seen_again : ℕ → MemberEntry → MemberEntry
seen_again now m = record m { last_seen_at = now; is_active = true; all_clear_since = none }

-- A group with a member that is new or active again.
abbrev pub joined : GroupState → GroupState
joined g = record g {
  has_pending_new_member = if g.has_been_flushed then true else g.has_pending_new_member;
  all_clear_at = none;
}

-- The member that the group has for the agent of the alert, or none.
unfoldable pub ingest_member : String → ℕ → Option MemberEntry → GroupState → GroupState
unfolding insert
ingest_member agent now none g =
    joined (record g { members = insert agent (new_member agent now) g.members })
ingest_member agent now (some m) g =
    let updated : GroupState = record g { members = insert agent (seen_again now m) g.members } in
    if not m.is_active then joined updated else updated

unfoldable pub ingest_group : AlertInput → ℕ → GroupState → GroupState
unfolding ingest_member lookup
ingest_group alert now g = ingest_member alert.agent now (lookup alert.agent g.members) g

unfoldable pub ingest : AlertInput → ℕ → GroupingEngine → GroupingEngine
unfolding ingest_group new_group key_of lookup insert
ingest alert now e =
    let key = key_of alert in
    let g = or_else (lookup key e.groups) (new_group alert now) in
    record e { groups = insert key (ingest_group alert now g) e.groups }

abbrev pub cleared : ℕ → MemberEntry → MemberEntry
cleared now m = record m { is_active = false; all_clear_since = some now }

unfoldable pub clear_member : String → ℕ → Option MemberEntry → GroupState → GroupState
unfolding insert
clear_member agent now none g = g
clear_member agent now (some m) g =
    if m.is_active then record g { members = insert agent (cleared now m) g.members } else g

-- A change of the group with a key, if there is one.
unfoldable pub with_group :
    String → (GroupState → GroupState) → Option GroupState → GroupingEngine → GroupingEngine
unfolding insert
with_group key f none e = e
with_group key f (some g) e = record e { groups = insert key (f g) e.groups }

unfoldable pub mark_inactive :
    String → String → String → String → ℕ → GroupingEngine → GroupingEngine
unfolding with_group clear_member compute_group_key lookup
mark_inactive state reason_class severity agent now e =
    let key = compute_group_key state reason_class severity in
    with_group key (λ g. clear_member agent now (lookup agent g.members) g) (lookup key e.groups) e

unfoldable pub sync_member : List String → ℕ → String × MemberEntry → String × MemberEntry
sync_member active_agents now entry =
    if not (any (str_eq entry.0) active_agents) && entry.1.is_active
    then (entry.0, cleared now entry.1)
    else entry

abbrev pub synced : List String → ℕ → GroupState → GroupState
synced active_agents now g = record g { members = map (sync_member active_agents now) g.members }

unfoldable pub sync_active_members :
    String → String → String → List String → ℕ → GroupingEngine → GroupingEngine
unfolding with_group sync_member compute_group_key lookup
sync_active_members state reason_class severity active_agents now e =
    let key = compute_group_key state reason_class severity in
    with_group key (synced active_agents now) (lookup key e.groups) e

abbrev pub active_members : GroupState → Store MemberEntry
active_members g = keep (λ (entry : String × MemberEntry). entry.1.is_active) g.members

unfoldable pub agents_of : Store MemberEntry → List String
agents_of members = map (λ (entry : String × MemberEntry). entry.1.agent) members

unfoldable pub all_clear_time : ℕ → Store MemberEntry → ℕ → ℕ
all_clear_time now [] latest = latest
all_clear_time now (entry ∷ later) latest =
    all_clear_time now later (max latest (or_else entry.1.all_clear_since now))

unfoldable pub should_flush : GroupingEngine → ℕ → GroupState → Bool
should_flush e now g =
    let interval_passed = leb (g.last_flushed_at + e.group_interval_sec) now in
    let repeat_passed = leb (g.last_flushed_at + e.repeat_interval_sec) now in
    if not g.has_been_flushed
    then leb (g.created_at + e.group_wait_sec) now
    else (if g.has_pending_new_member then interval_passed else repeat_passed)
      || (interval_passed && repeat_passed)

unfoldable pub build_group_message : GroupState → GroupMessage
unfolding agents_of
build_group_message g = record {
  group_key = g.group_key;
  state = g.state;
  reason_class = g.reason_class;
  severity = g.severity;
  agents = agents_of (active_members g);
  first_stuck_at = g.created_at;
  is_resolved = false;
}

unfoldable pub resolved_message : String → GroupState → GroupMessage
unfolding agents_of
resolved_message key g = record {
  group_key = key;
  state = g.state;
  reason_class = g.reason_class;
  severity = g.severity;
  agents = agents_of g.members;
  first_stuck_at = g.created_at;
  is_resolved = true;
}

abbrev pub flushed : ℕ → GroupState → GroupState
flushed now g = record g {
  last_flushed_at = now;
  has_been_flushed = true;
  has_pending_new_member = false;
}

-- A group none of whose members is active: it stays, or it is disposed of.
unfoldable pub tick_clear :
    GroupingEngine → ℕ → String → GroupState → Option GroupState × List GroupMessage
unfolding all_clear_time resolved_message
tick_clear e now key g =
    let since = or_else g.all_clear_at (all_clear_time now g.members 0) in
    if leb (since + e.resolved_grace_sec) now
    then (none, if g.has_been_flushed then resolved_message key g ∷ [] else [])
    else (some (record g { all_clear_at = some since }), [])

unfoldable pub tick_active : GroupingEngine → ℕ → GroupState → Option GroupState × List GroupMessage
unfolding should_flush build_group_message
tick_active e now g =
    let busy : GroupState = record g { all_clear_at = none } in
    if should_flush e now busy
    then (some (flushed now busy), build_group_message busy ∷ [])
    else (some busy, [])

-- One turn of the loop over the groups. A group without members is left alone.
unfoldable pub tick_group :
    GroupingEngine → ℕ → String → GroupState → Option GroupState × List GroupMessage
unfolding tick_clear tick_active
tick_group e now key g =
    if length (active_members g) == 0 && ltb 0 (length g.members)
    then tick_clear e now key g
    else if length (active_members g) == 0
    then (some g, [])
    else tick_active e now g

abbrev pub kept_group : String → Option GroupState → Store GroupState → Store GroupState
kept_group key none rest = rest
kept_group key (some g) rest = (key, g) ∷ rest

unfoldable pub tick_groups :
    GroupingEngine → ℕ → Store GroupState → Store GroupState × List GroupMessage
unfolding tick_group
tick_groups e now [] = ([], [])
tick_groups e now (entry ∷ later) =
    let out = tick_group e now entry.0 entry.1 in
    let rest = tick_groups e now later in (kept_group entry.0 out.0 rest.0, out.1 ++ rest.1)

unfoldable pub tick : ℕ → GroupingEngine → GroupingEngine × List GroupMessage
unfolding tick_groups
tick now e = let out = tick_groups e now e.groups in (record e { groups = out.0 }, out.1)

unfoldable pub insert_sorted : String → List String → List String
insert_sorted name [] = name ∷ []
insert_sorted name (other ∷ later) =
    let rest = insert_sorted name later in
    if is_lt (text_compare other name) then other ∷ rest else name ∷ other ∷ later

unfoldable pub sort : List String → List String
unfolding insert_sorted
sort [] = []
sort (name ∷ later) = insert_sorted name (sort later)

-- The names of the dump files that are left.
unfoldable pub rotate_dump_files : ℕ → List String → List String
unfolding sort
rotate_dump_files max_dump_files names =
    let files = sort names in
    if ltb max_dump_files (length files) then drop (length files - max_dump_files) files else files
