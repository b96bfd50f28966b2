-- ===== src/Board/Subagents.antt =====
-- createSubagentTask of db.ts: the row of a sub-agent, of an addendum to a finished task, or of
-- preparation for a task that has not started.
use threadwork.Prelude.{
  ℕ, ◌+◌, String, Bool, true, false, not, ◌&&◌, ◌||◌, Option, none, some, if◌then◌else◌, or_else,
}
use threadwork.Board.Task.{
  Task, Board, Status, plain, addendum_to, prep_to, pending, in_progress, draft, backlog,
  is_in_progress, is_open, default_task, get_row,
}
use threadwork.Board.Create.{
  Call, returns, throws, ◌>>=◌, ◌>>◌, throw_unless, parent_not_found, parent_not_in_progress,
  prep_and_addendum, addendum_parent_open, prep_parent_closed, progress_timeout_default, insert_row,
}

pub record SubagentInput : Type 0 where
  pub description : String
  pub parent_task_id : ℕ
  pub supervisor_agent : String
  pub heartbeat_timeout_sec : Option ℕ
  pub progress_timeout_sec : Option ℕ
  pub is_addendum : Bool
  pub is_prep : Bool  -- kind === 'prep'

-- ['draft', 'pending', 'backlog', 'in_progress'].includes(status)
abbrev pub prep_ok : Status → Bool
prep_ok draft = true
prep_ok pending = true
prep_ok backlog = true
prep_ok in_progress = true
prep_ok _ = false

unfoldable pub check_subagent_parent : SubagentInput → Status → Call (Unit {0})
check_subagent_parent input s =
    if input.is_addendum
    then throw_unless (not (is_open s)) addendum_parent_open
    else if input.is_prep
    then throw_unless (prep_ok s) prep_parent_closed
    else throw_unless (is_in_progress s) parent_not_in_progress

unfoldable pub find_parent : Option Task → Call Task
find_parent none = throws parent_not_found
find_parent (some t) = returns t

unfoldable pub subagent_row : ℕ → ℕ → SubagentInput → Task
unfolding default_task
subagent_row id now input =
    let hb = or_else input.heartbeat_timeout_sec 180 in
    let who = input.supervisor_agent in
    let text =
      if input.is_addendum
      then addendum_to input.parent_task_id input.description
      else if input.is_prep
      then prep_to input.parent_task_id input.description
      else plain input.description in
    let stamp = if input.is_prep then none else some now in
    let row = default_task id now who (some who) text "normal" in
    record row {
      supervisor_agent = some who;
      kind = if input.is_prep then "prep" else "subagent";
      parent_task_id = some input.parent_task_id;
      heartbeat_timeout_sec = some hb;
      progress_timeout_sec = some (or_else input.progress_timeout_sec progress_timeout_default);
      status = if input.is_prep then pending else in_progress;
      claimed_at = stamp;
      last_heartbeat_at = stamp;
      last_progress_at = stamp;
      next_check_at = if input.is_prep || input.is_addendum then none else some (now + hb);
      is_synthetic = true;
      is_addendum = input.is_addendum;
    }

unfoldable pub create_subagent_task : ℕ → SubagentInput → Board → Call (Task × Board)
unfolding check_subagent_parent find_parent subagent_row insert_row
create_subagent_task now input b = do
  throw_unless (not (input.is_prep && input.is_addendum)) prep_and_addendum
  parent ← find_parent (get_row input.parent_task_id b.tasks)
  check_subagent_parent input parent.status
  insert_row (subagent_row b.next_id now input) b
