-- ===== src/Witnesses/Boards.antt =====
-- The theorems on completion, hiring, lineage and whole runs of the board, at concrete boards.
use threadwork.Prelude.{
  ◌⊎◌, ◌+◌, ◌≡◌, ◌↔◌, refl, Bool, true, false, none, some, List, [], ◌∷◌, arith, text_is,
  if◌then◌else◌, keep,
}
use threadwork.Board.Task.{Task, Board, completed, get_row}
use threadwork.Board.Create.{
  DelegateTaskInput, delegate_task, delegated_row, brief_fits, returns, is_unsupervised,
}
use threadwork.Board.Subagents.{SubagentInput, create_subagent_task, subagent_row}
use threadwork.Board.Hiring.{
  delegate_task_iff, create_subagent_task_iff, has_running_parent, takes_subagent,
}
use threadwork.Board.Finalizer.{finalize, open_children, task, not_found, error}
use threadwork.Board.Closing.{is_synthetic, ids}
use threadwork.Board.Completion.{
  finalize_done, finalize_blocked, finalize_refused, final_row, is_running_child, auto_closed,
}
use threadwork.Board.Lineage.{get_task_lineage}
use threadwork.Board.Ancestry.{get_task_lineage-IsWalk, IsWalk}
use threadwork.Board.Lifecycle.{IsSound}
use threadwork.Board.Lifecycle.Runs.{
  Event, run, IsWellFormed, run-IsWellFormed, park, run_hygiene, unpark, finalize_owned, claim,
}
use threadwork.Board.Hygiene.{is_archivable}
use threadwork.Board.Lifecycle.Final.{final_for_ever}
use threadwork.Board.Statement.{IsKeyedBoard}
use threadwork.Witnesses.Tasks.{running_board-keyed}
use threadwork.Witnesses.{
  running, helper, part, waiting, running_board, parted_board, waiting_board, task_of,
}

abbrev of_bob : Task → Bool
of_bob t = text_is t.to_agent "bob"

abbrev of_cy : Task → Bool
of_cy t = text_is t.to_agent "cy"

parted_board-keyed : IsKeyedBoard parted_board
parted_board-keyed = (omega arith, (omega arith, (omega arith, tt)))

finalize_done_example :
    let after = finalize 40 1 "all done" of_bob running_board in
    let u = final_row 40 "all done" running in
    (after.0 ≡ task u (ids (keep is_synthetic (open_children 1 running_board))))
    × (get_row 1 after.1.tasks ≡ some u)
unfolding open_children
finalize_done_example =
    finalize_done 40 1 "all done" of_bob running_board running running_board-keyed refl refl refl
      refl refl

finalize_blocked_example :
    let after = finalize 40 1 "all done" of_bob parted_board in
    (after.0 ≡ error (ids (part ∷ [])))
    × (get_row 2 after.1.tasks
        ≡ some (if is_running_child 1 helper then auto_closed 40 helper else helper))
unfolding open_children
finalize_blocked_example =
    finalize_blocked 40 1 "all done" of_bob parted_board part [] 2 helper parted_board-keyed refl
      refl

finalize_refused_example :
    let after = finalize 40 1 "all done" of_cy running_board in
    (after.0 ≡ not_found)
    × (get_row 2 after.1.tasks
        ≡ some (if is_running_child 1 helper then auto_closed 40 helper else helper))
unfolding open_children
finalize_refused_example =
    finalize_refused 40 1 "all done" of_cy running_board running 2 helper running_board-keyed refl
      refl refl refl refl

abbrev to_cy : DelegateTaskInput
to_cy = record {
  from = "bob";
  to = "cy";
  description = "a part";
  priority = "high";
  supervisor_agent = "bob";
  parent_task_id = some 1;
  heartbeat_timeout_sec = none;
  progress_timeout_sec = none;
  kind = none;
  delegation_brief = some "read the notes";
}

abbrev handed_over : Task × Board
handed_over = (
  delegated_row 3 50 to_cy,
  record { tasks = delegated_row 3 50 to_cy ∷ running_board.tasks; next_id = 3 + 1 },
)

delegate_task_iff_example : (delegate_task 50 to_cy running_board ≡ returns handed_over) ↔ (
    (brief_fits to_cy.delegation_brief ≡ true)
    × (has_running_parent to_cy.parent_task_id running_board ≡ true)
    × (handed_over ≡ (
      delegated_row 3 50 to_cy,
      record { tasks = delegated_row 3 50 to_cy ∷ running_board.tasks; next_id = 3 + 1 },
    )))
delegate_task_iff_example = delegate_task_iff 50 to_cy running_board handed_over

abbrev prep : SubagentInput
prep = record {
  description = "look around";
  parent_task_id = 1;
  supervisor_agent = "bob";
  heartbeat_timeout_sec = none;
  progress_timeout_sec = none;
  is_addendum = false;
  is_prep = true;
}

abbrev prepared : Task × Board
prepared = (
  subagent_row 2 50 prep,
  record { tasks = subagent_row 2 50 prep ∷ waiting_board.tasks; next_id = 2 + 1 },
)

create_subagent_task_iff_example :
    (create_subagent_task 50 prep waiting_board ≡ returns prepared) ↔ (
      (parent : Task) × (get_row 1 waiting_board.tasks ≡ some parent)
      × (takes_subagent false true parent.status ≡ true)
      × (prepared ≡ (
        subagent_row 2 50 prep,
        record { tasks = subagent_row 2 50 prep ∷ waiting_board.tasks; next_id = 2 + 1 },
      )))
create_subagent_task_iff_example = create_subagent_task_iff 50 prep waiting_board prepared

get_task_lineage-IsWalk_example :
    (l : List Task) × (get_task_lineage 3 parted_board ≡ some l)
    × IsWalk parted_board.tasks (some 3) [] l
get_task_lineage-IsWalk_example = get_task_lineage-IsWalk 3 parted_board

waiting-IsSound : IsSound waiting
unfolding is_unsupervised
waiting-IsSound = record {
  supervised = refl;
  completed_stamped = λ e. cc;
  cancelled_stamped = λ e. cc;
  parked_remembers = λ e. cc;
}

waiting_board-IsWellFormed : IsWellFormed waiting_board
waiting_board-IsWellFormed = record { keyed = (omega arith, tt); sound = (waiting-IsSound, tt) }

abbrev story : List Event
story =
    record { at = 60; op = park 1; sessions = [] }
    ∷ record { at = 65; op = run_hygiene false; sessions = [] }
    ∷ record { at = 70; op = unpark 1; sessions = [] }
    ∷ record { at = 80; op = claim 1 "bob"; sessions = [] }
    ∷ record { at = 90; op = finalize_owned 1 "ok" "bob"; sessions = [] }
    ∷ []

run-IsWellFormed_example : IsWellFormed (run story waiting_board)
run-IsWellFormed_example = run-IsWellFormed story waiting_board waiting_board-IsWellFormed

abbrev finished : Task
finished = record (task_of 1 (some "bob") completed) { completed_at = some 9 }

abbrev finished_board : Board
finished_board = record { tasks = finished ∷ []; next_id = 2 }

finished-IsSound : IsSound finished
unfolding is_unsupervised
finished-IsSound = record {
  supervised = refl;
  completed_stamped = λ e. refl;
  cancelled_stamped = λ e. cc;
  parked_remembers = λ e. cc;
}

final_for_ever_example :
    ((u : Task) × (get_row 1 (run story finished_board).tasks ≡ some u)
      × (u.status ≡ finished.status))
    ⊎ ((get_row 1 (run story finished_board).tasks ≡ none) × (is_archivable finished.status ≡ true))
final_for_ever_example =
    final_for_ever story finished_board 1 finished
      (record { keyed = (omega arith, tt); sound = (finished-IsSound, tt) }) refl refl
