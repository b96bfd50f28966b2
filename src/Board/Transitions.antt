-- ===== src/Board/Transitions.antt =====
-- TaskDB's statements that move one row through its life: claiming, completion without the child
-- check, assignment, GO, parking, and closing a sub-agent row. Where no row passes the WHERE
-- clause the statement returns `none`.
use threadwork.Prelude.{
  ℕ, ◌+◌, String, ◌&&◌, Option, none, some, ◌==◌, if◌then◌else◌, or_else, is_some, text_is,
}
use threadwork.Board.Task.{
  Task, Board, Status, pending, in_progress, completed, cancelled, parked, is_pending,
  is_in_progress, is_parked, is_assignable, is_parkable, awaits_go, update_returning,
}
use threadwork.Board.Create.{heartbeat_timeout_default}

abbrev pub Outcome : Type 0
Outcome = Option Task × Board

unfoldable pub claim_task : ℕ → ℕ → String → Board → Outcome
unfolding update_returning
claim_task now id who =
    update_returning (λ t. t.id == id && text_is t.to_agent who && is_pending t.status)
      (λ t. record t { status = in_progress; claimed_at = some now })

unfoldable pub complete_task : ℕ → ℕ → String → String → Board → Outcome
unfolding update_returning
complete_task now id result who =
    update_returning (λ t. t.id == id && is_in_progress t.status && text_is t.to_agent who)
      (λ t. record t { status = completed; result = some result; completed_at = some now })

-- The boss's override: whoever the row is assigned to.
unfoldable pub force_complete_task : ℕ → ℕ → String → Board → Outcome
unfolding update_returning
force_complete_task now id result =
    update_returning (λ t. t.id == id && is_in_progress t.status)
      (λ t. record t { status = completed; result = some result; completed_at = some now })

-- What a claim or a GO writes, so that the watchdog finds the row due after the heartbeat timeout.
unfoldable pub arm : ℕ → Option String → Task → Task
arm now session t = record t {
  status = in_progress;
  claimed_at = some now;
  worker_session_id = session;
  last_heartbeat_at = some now;
  last_progress_at = some now;
  next_check_at = some (now + heartbeat_timeout_default);
  attempt_id = some (or_else t.attempt_id 0 + 1);
}

unfoldable pub claim_task_with_session : ℕ → ℕ → String → Option String → Board → Outcome
unfolding update_returning arm
claim_task_with_session now id who session =
    update_returning (λ t. t.id == id && text_is t.to_agent who && is_pending t.status)
      (arm now session)

unfoldable pub assign_task : ℕ → String → String → Board → Outcome
unfolding update_returning
assign_task id who supervisor =
    update_returning (λ t. t.id == id && is_assignable t.status)
      (λ t. record t {
        to_agent = some who;
        supervisor_agent = some supervisor;
        version = t.version + 1;
      })

unfoldable pub transition_to_in_progress : ℕ → ℕ → Option String → Board → Outcome
unfolding update_returning arm
transition_to_in_progress now id session =
    update_returning (λ t. t.id == id && awaits_go t.status && is_some t.to_agent)
      (λ t. let armed = arm now session t in record armed { version = t.version + 1 })

unfoldable pub park_task : ℕ → Board → Outcome
unfolding update_returning
park_task id =
    update_returning (λ t. t.id == id && is_parkable t.status)
      (λ t. record t {
        prior_status = some t.status;
        status = parked;
        next_check_at = none;
        version = t.version + 1;
      })

-- CASE WHEN COALESCE(prior_status, 'pending') = 'in_progress' THEN a ELSE b END
unfoldable pub resume : ℕ → Task → Task
resume now t =
    let s = or_else t.prior_status pending in
    let live = is_in_progress s in
    record t {
      status = s;
      last_heartbeat_at = if live then some now else t.last_heartbeat_at;
      last_progress_at = if live then some now else t.last_progress_at;
      next_check_at = if live then some (now + heartbeat_timeout_default) else none;
      version = t.version + 1;
    }

unfoldable pub unpark_task : ℕ → ℕ → Board → Outcome
unfolding update_returning resume
unpark_task now id = update_returning (λ t. t.id == id && is_parked t.status) (resume now)

-- The row of a sub-agent ends: its timing fields are cleared, so the watchdog leaves it alone.
unfoldable pub end_subagent : Status → ℕ → ℕ → String → Board → Outcome
unfolding update_returning
end_subagent s now id result =
    update_returning (λ t. t.id == id && t.is_synthetic && is_in_progress t.status)
      (λ t. record t {
        status = s;
        result = some result;
        completed_at = some now;
        next_check_at = none;
        blocked_at = none;
        blocked_reason = none;
      })

unfoldable pub close_subagent_task : ℕ → ℕ → String → Board → Outcome
unfolding end_subagent
close_subagent_task = end_subagent completed

unfoldable pub cancel_subagent_task : ℕ → ℕ → String → Board → Outcome
unfolding end_subagent
cancel_subagent_task = end_subagent cancelled
