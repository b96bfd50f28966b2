-- ===== src/Board/Task.antt =====
-- The rows of the task board (`Task` of db.ts, with the column defaults of the schema) and the two
-- statements through which TaskDB touches them. A time is in seconds, as `datetime('now')` is.
use mathlib.Core.Option
use threadwork.Prelude.Table.{update, row}
use threadwork.Prelude.{ℕ, String, Bool, true, false, Option, none, some, List, [], find}

pub data Status : Type 0 where
  pending in_progress completed cancelled draft backlog review done parked : Status

pub data BlockedOn : Type 0 where
  human external_api upstream_task agent : BlockedOn

-- A description, with the label that createSubagentTask puts in front of it.
pub data Description : Type 0 where
  plain : String → Description
  addendum_to prep_to : ℕ → String → Description

pub record Task : Type 0 where
  pub id : ℕ
  pub from_agent : String
  pub to_agent : Option String
  pub description : Description
  pub priority : String
  pub status : Status
  pub result : Option String
  pub created_at : ℕ
  pub claimed_at : Option ℕ
  pub completed_at : Option ℕ
  pub nudge_count : ℕ
  pub parent_task_id : Option ℕ
  pub kind : String
  pub supervisor_agent : Option String
  pub last_heartbeat_at : Option ℕ
  pub last_progress_at : Option ℕ
  pub next_check_at : Option ℕ
  pub heartbeat_timeout_sec : Option ℕ
  pub progress_timeout_sec : Option ℕ
  pub blocked_at : Option ℕ
  pub blocked_reason : Option String
  pub blocked_on : Option BlockedOn
  pub escalation_level : ℕ
  pub worker_session_id : Option String
  pub version : ℕ
  pub is_synthetic : Bool
  pub is_addendum : Bool
  pub attempt_id : Option ℕ
  pub result_finding_id : Option ℕ
  pub last_eta_sec : Option ℕ
  pub prior_status : Option Status
  pub complexity_user : Option String
  pub delegation_brief : Option String

-- The values that an INSERT leaves to the column defaults of the schema.
unfoldable pub default_task : ℕ → ℕ → String → Option String → Description → String → Task
default_task id now from to description priority = record {
  id = id;
  from_agent = from;
  to_agent = to;
  description = description;
  priority = priority;
  status = pending;
  result = none;
  created_at = now;
  claimed_at = none;
  completed_at = none;
  nudge_count = 0;
  parent_task_id = none;
  kind = "task";
  supervisor_agent = none;
  last_heartbeat_at = none;
  last_progress_at = none;
  next_check_at = none;
  heartbeat_timeout_sec = some 120;
  progress_timeout_sec = some 600;
  blocked_at = none;
  blocked_reason = none;
  blocked_on = none;
  escalation_level = 0;
  worker_session_id = none;
  version = 1;
  is_synthetic = false;
  is_addendum = false;
  attempt_id = some 0;
  result_finding_id = none;
  last_eta_sec = none;
  prior_status = none;
  complexity_user = none;
  delegation_brief = none;
}

abbrev pub is_pending : Status → Bool
is_pending pending = true
is_pending _ = false

abbrev pub is_in_progress : Status → Bool
is_in_progress in_progress = true
is_in_progress _ = false

abbrev pub is_parked : Status → Bool
is_parked parked = true
is_parked _ = false

-- status NOT IN ('completed', 'cancelled')
abbrev pub is_open : Status → Bool
is_open completed = false
is_open cancelled = false
is_open _ = true

-- status NOT IN ('completed', 'cancelled', 'done')
abbrev pub is_assignable : Status → Bool
is_assignable completed = false
is_assignable cancelled = false
is_assignable done = false
is_assignable _ = true

-- status NOT IN ('completed', 'cancelled', 'done', 'parked')
abbrev pub is_parkable : Status → Bool
is_parkable completed = false
is_parkable cancelled = false
is_parkable done = false
is_parkable parked = false
is_parkable _ = true

-- status IN ('draft', 'pending')
abbrev pub awaits_go : Status → Bool
awaits_go draft = true
awaits_go pending = true
awaits_go _ = false

-- The table, newest row first, and the next AUTOINCREMENT id.
pub record Board : Type 0 where
  pub tasks : List Task
  pub next_id : ℕ

abbrev pub empty_board : Board
empty_board = record { tasks = []; next_id = 1 }

-- SELECT * FROM tasks WHERE id = ?
abbrev pub get_row : ℕ → List Task → Option Task
get_row = row (λ t. t.id)

-- UPDATE tasks SET f WHERE p RETURNING *, with `.get()`: the first row that was written.
unfoldable pub update_returning : (Task → Bool) → (Task → Task) → Board → Option Task × Board
unfolding update
update_returning p f b = (Option.map f (find p b.tasks), record b { tasks = update p f b.tasks })
