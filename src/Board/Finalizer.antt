-- ===== src/Board/Finalizer.antt =====
-- Completion with the check of the children (completeTaskWithFinalizerCheck and
-- forceCompleteTaskWithFinalizerCheck of db.ts), the rows of sub-agents, and heartbeats.
-- The statements of one call are made one after the other, with no transaction round them.
use threadwork.Prelude.Table.{update}
use threadwork.Prelude.{
  ℕ, String, Bool, true, false, not, ◌&&◌, Option, none, some, List, [], ◌∷◌, ◌==◌, str_eq,
  if◌then◌else◌, number_is, text_is, keep, oldest_first,
}
use threadwork.Board.Task.{
  Task, Board, Status, completed, review, is_in_progress, is_open, get_row, update_returning,
}
use threadwork.Board.Transitions.{Outcome}

-- A card of the autonomous board has a non-empty complexity_user.
unfoldable pub is_card_lifecycle_row : Task → Bool
is_card_lifecycle_row t = elim t.complexity_user [ none ↦ false | some c ↦ not (str_eq c "") ]

-- parent_task_id = ? AND status NOT IN ('completed', 'cancelled') AND is_addendum = 0
abbrev pub is_open_child : ℕ → Task → Bool
is_open_child id t = number_is t.parent_task_id id && is_open t.status && not t.is_addendum

-- The rows come in the order of their ids.
unfoldable pub open_children : ℕ → Board → List Task
open_children id b = oldest_first (keep (is_open_child id) b.tasks)

unfoldable pub closed_row : ℕ → Task → Task
closed_row now t = record t {
  status = completed;
  result = some "Auto-closed: parent task completed";
  completed_at = some now;
  next_check_at = none;
}

-- The UPDATE of the loop, for one synthetic child.
unfoldable pub close_child : ℕ → ℕ → Board → Board
unfolding closed_row
close_child now child b = record b {
  tasks = update (λ t. t.id == child && is_in_progress t.status) (closed_row now) b.tasks;
}

-- The loop over the open children: synthetic ones are closed, the others are collected.
unfoldable pub close_children : ℕ → List Task → Board → List ℕ × List ℕ × Board
unfolding close_child
close_children now [] b = ([], [], b)
close_children now (c ∷ cs) b =
    let (closed, left, b') =
      close_children now cs (if c.is_synthetic then close_child now c.id b else b) in
    if c.is_synthetic then (c.id ∷ closed, left, b') else (closed, c.id ∷ left, b')

-- `error` lists the open children; `not_found` is the result with no task and no error.
pub data Completion : Type 0 where
  error : List ℕ → Completion
  not_found : Completion
  task : Task → List ℕ → Completion

-- A card waits in 'review' for a person to accept it.
unfoldable pub terminal_status : Option Task → Status
unfolding is_card_lifecycle_row
terminal_status none = completed
terminal_status (some t) = if is_card_lifecycle_row t then review else completed

unfoldable pub finished_row : ℕ → Status → String → Task → Task
finished_row now s result t = record t {
  status = s;
  result = some result;
  completed_at = some now;
  next_check_at = none;
  blocked_at = none;
  blocked_reason = none;
}

unfoldable pub finish : ℕ → ℕ → String → (Task → Bool) → Board → Outcome
unfolding update_returning terminal_status finished_row
finish now id result owned b =
    let s = terminal_status (get_row id b.tasks) in
    update_returning (λ t. t.id == id && is_in_progress t.status && owned t)
      (finished_row now s result) b

unfoldable pub settle : List ℕ → List ℕ → Board → (Board → Outcome) → Completion × Board
settle closed (c ∷ cs) b complete = (error (c ∷ cs), b)
settle closed [] b complete =
    let (found, b') = complete b in (elim found [ none ↦ not_found | some t ↦ task t closed ], b')

-- `owned` is the last test of the final UPDATE's WHERE clause.
unfoldable pub finalize : ℕ → ℕ → String → (Task → Bool) → Board → Completion × Board
unfolding open_children close_children settle finish
finalize now id result owned b =
    let (closed, left, b') = close_children now (open_children id b) b in
    settle closed left b' (finish now id result owned)

unfoldable pub complete_task_with_finalizer_check :
    ℕ → ℕ → String → String → Board → Completion × Board
unfolding finalize
complete_task_with_finalizer_check now id result who =
    finalize now id result (λ t. text_is t.to_agent who)

-- The boss's override has no test of the assignee.
unfoldable pub force_complete_task_with_finalizer_check :
    ℕ → ℕ → String → Board → Completion × Board
unfolding finalize
force_complete_task_with_finalizer_check now id result = finalize now id result (λ t. true)
