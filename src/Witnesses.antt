-- ===== src/Witnesses.antt =====
-- Concrete tasks, boards and sessions, and the theorems at them.
pub mod Tasks
pub mod Boards
pub mod Circuits
pub mod Alerts
pub mod Repeats
pub mod Pipeline
pub mod Groups
pub mod Verdicts
pub mod Rulings
use threadwork.Prelude.{ℕ, String, Bool, true, false, Option, none, some, List, [], ◌∷◌}
use threadwork.Board.Task.{Task, Board, Status, pending, in_progress, completed, plain}

-- A task that the agent "ann" gave to `who`.
abbrev pub task_of : ℕ → Option String → Status → Task
task_of id who status = record {
  id = id;
  from_agent = "ann";
  to_agent = who;
  description = plain "work";
  priority = "normal";
  status = status;
  result = none;
  created_at = 5;
  claimed_at = none;
  completed_at = none;
  nudge_count = 0;
  parent_task_id = none;
  kind = "task";
  supervisor_agent = some "ann";
  last_heartbeat_at = none;
  last_progress_at = none;
  next_check_at = none;
  heartbeat_timeout_sec = some 120;
  progress_timeout_sec = some 600;
  blocked_at = none;
  blocked_reason = none;
  blocked_on = none;
  escalation_level = 0;
  worker_session_id = none;
  version = 1;
  is_synthetic = false;
  is_addendum = false;
  attempt_id = some 0;
  result_finding_id = none;
  last_eta_sec = none;
  prior_status = none;
  complexity_user = none;
  delegation_brief = none;
}

abbrev pub waiting : Task
waiting = task_of 1 (some "bob") pending

abbrev pub running : Task
running = task_of 1 (some "bob") in_progress

-- A child of task 1: a sub-agent's row, or a task of its own.
abbrev pub helper : Task
helper = record (task_of 2 (some "bob") in_progress) {
  parent_task_id = some 1;
  kind = "subagent";
  is_synthetic = true;
}

abbrev pub part : Task
part = record (task_of 3 (some "cy") pending) { parent_task_id = some 1 }

abbrev pub waiting_board : Board
waiting_board = record { tasks = waiting ∷ []; next_id = 2 }

abbrev pub running_board : Board
running_board = record { tasks = helper ∷ running ∷ []; next_id = 3 }

abbrev pub parted_board : Board
parted_board = record { tasks = part ∷ helper ∷ running ∷ []; next_id = 4 }
