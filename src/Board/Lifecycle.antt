-- ===== src/Board/Lifecycle.antt =====
-- The statuses of a row of the board, the moves between them, and what holds of every row (the
-- columns status, prior_status, completed_at and supervisor_agent of `tasks` in db.ts).
pub mod Statements
pub mod Runs
pub mod Rows
pub mod Final
use threadwork.Prelude.{
  ℕ, ◌≤◌, ◌<◌, ◌≡◌, refl, Bool, true, false, not, ◌&&◌, Option, none, some, List, [], ◌∷◌, String,
  arith, if◌then◌else◌, is_some, length, ◌+◌, inl, inr, Bool-cases, Option-cases, ◌==◌, or_else,
}
use threadwork.Prelude.Table.{
  update, IsKeyed, IsKeyed-mono, KeepsKey, Evolves, Evolves-refl, Evolves-update, Evolves-trans,
  Evolves-IsKeyed, row-Evolves,
}
use threadwork.Board.Task.{
  Task, Board, Status, pending, in_progress, completed, cancelled, draft, backlog, review, done,
  parked, is_parkable, update_returning, get_row, is_in_progress, is_pending, awaits_go, is_parked,
}
use threadwork.Board.Create.{
  Call, returns, throws, DelegateTaskInput, create_task, delegate_task, insert_row, is_unsupervised,
  ◌>>=◌, ◌>>◌, throw_unless,
}
use threadwork.Board.Transitions.{
  Outcome, claim_task, claim_task_with_session, complete_task, force_complete_task, assign_task,
  transition_to_in_progress, park_task, unpark_task, close_subagent_task, cancel_subagent_task,
}
use threadwork.Board.Finalizer.{
  complete_task_with_finalizer_check, force_complete_task_with_finalizer_check, finalize,
  close_children, close_child, terminal_status,
}
use threadwork.Board.Heartbeat.{HeartbeatInput, update_heartbeat}
use threadwork.Board.Subagents.{SubagentInput, create_subagent_task}
use threadwork.Sessions.{Sessions}

-- The moves that a status makes.
infix 40 ◌⟶◌
pub data ◌⟶◌ : Status → Status → Type 0 where
  claim : pending ⟶ in_progress
  go : draft ⟶ in_progress
  complete : in_progress ⟶ completed
  submit : in_progress ⟶ review
  cancel : in_progress ⟶ cancelled
  hold : {s : Status} → is_parkable s ≡ true → s ⟶ parked
  release : {s : Status} → is_parkable s ≡ true → parked ⟶ s

pub data Moves (s : Status) : Status → Type 0 where
  stay : Moves s s
  next : {t u : Status} → Moves s t → t ⟶ u → Moves s u

pub Moves-trans : {s t u : Status} → Moves s t → Moves t u → Moves s u
Moves-trans m stay = m
Moves-trans m (next n e) = next (Moves-trans m n) e

-- What holds of every row: a row of another agent has a supervisor, a finished row has the time of
-- its end, and a parked row remembers a status that can be parked.
pub record IsSound (t : Task) : Type 0 where
  pub supervised : is_unsupervised t ≡ false
  pub completed_stamped : t.status ≡ completed → is_some t.completed_at ≡ true
  pub cancelled_stamped : t.status ≡ cancelled → is_some t.completed_at ≡ true
  pub parked_remembers : t.status ≡ parked → is_parkable (or_else t.prior_status completed) ≡ true

-- How a row follows another with its id: by moves of the status, and sound if the other is.
pub record Follows (t u : Task) : Type 0 where
  pub moves : IsSound t → Moves t.status u.status
  pub sound : IsSound t → IsSound u

pub Follows-refl : (t : Task) → Follows t t
Follows-refl t = record { moves = λ h. stay; sound = λ h. h }

pub Follows-trans : (t u v : Task) → Follows t u → Follows u v → Follows t v
Follows-trans t u v h k = record {
  moves = λ s. Moves-trans (h.moves s) (k.moves (h.sound s));
  sound = λ s. k.sound (h.sound s);
}

abbrev pub key : Task → ℕ
key t = t.id

-- A statement on one row that makes its row follow the old one.
pub update_returning-Follows :
    (p : Task → Bool) (f : Task → Task) (b : Board)
    → KeepsKey key f
    → ((t : Task) → p t ≡ true → Follows t (f t))
    → Evolves key Follows b.tasks (update_returning p f b).1.tasks
unfolding update_returning
update_returning-Follows p f b k h = Evolves-update key Follows p f Follows-refl k h b.tasks
