-- ===== src/Witnesses/Tasks.antt =====
-- The theorems on single operations of the board, at concrete tasks.
use threadwork.Prelude.{◌+◌, ◌≡◌, ◌⊎◌, refl, true, false, ◌&&◌, none, some, arith, text_is, or_else}
use threadwork.Board.Task.{Task, in_progress, is_pending, is_parkable, get_row, external_api}
use threadwork.Board.Transitions.{
  claim_task, claim_task_with_session, transition_to_in_progress, park_task, unpark_task, arm,
}
use threadwork.Board.Claims.{claim_exact, claim_exclusive}
use threadwork.Board.Holding.{park_unpark, held, resumed}
use threadwork.Board.Heartbeat.{HeartbeatInput}
use threadwork.Board.Statement.{IsKeyedBoard}
use threadwork.Witnesses.{waiting, running, waiting_board, running_board}

waiting_board-keyed : IsKeyedBoard waiting_board
waiting_board-keyed = (omega arith, tt)

pub running_board-keyed : IsKeyedBoard running_board
running_board-keyed = (omega arith, (omega arith, tt))

claim_exact_example :
    let after = claim_task_with_session 10 1 "bob" none waiting_board in
    ((text_is waiting.to_agent "bob" && is_pending waiting.status ≡ true)
      × (u : Task) × (after.0 ≡ some u)
      × (get_row 1 after.1.tasks ≡ some u)
      × (u.status ≡ in_progress)
      × (u.to_agent ≡ waiting.to_agent)
      × (u.worker_session_id ≡ none)
      × (u.next_check_at ≡ some (10 + 120))
      × (u.attempt_id ≡ some (or_else waiting.attempt_id 0 + 1)))
    ⊎ ((text_is waiting.to_agent "bob" && is_pending waiting.status ≡ false)
        × (after ≡ (none, waiting_board)))
claim_exact_example = claim_exact 10 1 "bob" none waiting_board waiting waiting_board-keyed refl

claim_exclusive_example :
    let after = (claim_task_with_session 10 1 "bob" (some "s1") waiting_board).1 in
    (claim_task_with_session 11 1 "bob" (some "s2") after ≡ (none, after))
    × (claim_task 11 1 "bob" after ≡ (none, after))
    × (transition_to_in_progress 11 1 (some "s2") after ≡ (none, after))
unfolding claim_task_with_session
claim_exclusive_example =
    claim_exclusive 10 1 "bob" (some "s1") waiting_board (arm 10 (some "s1") waiting)
      waiting_board-keyed refl 11 "bob" (some "s2")

park_unpark_example :
    let after = park_task 1 running_board in
    ((is_parkable running.status ≡ true)
      × (after.0 ≡ some (held running))
      × (park_task 1 after.1 ≡ (none, after.1))
      × ((unpark_task 20 1 after.1).0 ≡ some (resumed 20 running))
      × (get_row 1 (unpark_task 20 1 after.1).1.tasks ≡ some (resumed 20 running)))
    ⊎ ((is_parkable running.status ≡ false) × (after ≡ (none, running_board)))
park_unpark_example = park_unpark 20 1 running_board running running_board-keyed refl

abbrev waits_for_api : HeartbeatInput
waits_for_api = record {
  task_id = 1;
  is_progress = none;
  is_blocked = some true;
  blocked_reason = some "quota";
  blocked_on = some external_api;
  eta_sec = some 900;
}

abbrev still_here : HeartbeatInput
still_here = record {
  task_id = 1;
  is_progress = none;
  is_blocked = none;
  blocked_reason = none;
  blocked_on = none;
  eta_sec = none;
}
