-- ===== src/Board/Hygiene.antt =====
-- The first step of runHygiene of db.ts: the tasks that ended more than 14 days ago go to
-- tasks_archive, and leave the table `tasks`. Its other steps are on other tables.
use threadwork.Prelude.{
  ℕ, ◌+◌, String, Bool, true, false, not, ◌&&◌, Option, none, some, List, [], ◌∷◌, ◌==◌, ltb, any,
  keep, length, if◌then◌else◌,
}
use threadwork.Board.Task.{Task, Board, Status, Description, completed, cancelled}

-- The columns of tasks_archive.
pub record ArchivedTask : Type 0 where
  pub id : ℕ
  pub from_agent : String
  pub to_agent : Option String
  pub description : Description
  pub priority : String
  pub status : Status
  pub result : Option String
  pub created_at : ℕ
  pub claimed_at : Option ℕ
  pub completed_at : Option ℕ
  pub archived_at : ℕ

-- status IN ('completed', 'cancelled')
abbrev pub is_archivable : Status → Bool
is_archivable completed = true
is_archivable cancelled = true
is_archivable _ = false

-- completed_at < datetime('now', '-14 days'), where NULL is not before anything
abbrev pub is_before : ℕ → Option ℕ → Bool
is_before now none = false
is_before now (some at) = ltb (at + 1209600) now

abbrev pub is_old : ℕ → Task → Bool
is_old now t = is_archivable t.status && is_before now t.completed_at

abbrev pub archived_row : ℕ → Task → ArchivedTask
archived_row now t = record {
  id = t.id;
  from_agent = t.from_agent;
  to_agent = t.to_agent;
  description = t.description;
  priority = t.priority;
  status = t.status;
  result = t.result;
  created_at = t.created_at;
  claimed_at = t.claimed_at;
  completed_at = t.completed_at;
  archived_at = now;
}

-- INSERT OR IGNORE, one row after the other.
unfoldable pub insert_archived : ℕ → List Task → List ArchivedTask → List ArchivedTask
insert_archived now [] archive = archive
insert_archived now (t ∷ later) archive =
    let known = any (λ (a : ArchivedTask). a.id == t.id) archive in
    let next = if known then archive else archived_row now t ∷ archive in
    insert_archived now later next

-- The count of old tasks, the archive and the board.
unfoldable pub archive_tasks : ℕ → Bool → List ArchivedTask → Board → ℕ × List ArchivedTask × Board
unfolding insert_archived
archive_tasks now dry_run archive b =
    let old_tasks = keep (is_old now) b.tasks in
    if dry_run then (length old_tasks, archive, b) else (
      length old_tasks,
      insert_archived now old_tasks archive,
      record b { tasks = keep (λ (t : Task). not (is_old now t)) b.tasks },
    )
