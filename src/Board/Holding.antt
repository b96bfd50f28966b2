-- ===== src/Board/Holding.antt =====
-- Parking a task and resuming it (parkTask and unparkTask of db.ts).
use threadwork.Prelude.{
  Bool-cases, ◌⊎◌, inl, inr, ℕ, ◌+◌, ◌≡◌, refl, Bool, true, false, ◌&&◌, none, some, ◌==◌,
  if◌then◌else◌, arith,
}
use threadwork.Prelude.Table.{key-row}
use threadwork.Board.Task.{
  Task, Board, parked, is_parked, is_parkable, is_in_progress, get_row, update_returning,
}
use threadwork.Board.Transitions.{park_task, unpark_task, resume}
use threadwork.Board.Statement.{key, IsKeyedBoard, update_hit, update_miss, update-IsKeyedBoard}

abbrev parks : ℕ → Task → Bool
parks id t = t.id == id && is_parkable t.status

abbrev unparks : ℕ → Task → Bool
unparks id t = t.id == id && is_parked t.status

-- A parked row: out of the watchdog's reach, with its status remembered.
abbrev pub held : Task → Task
held t = record t {
  prior_status = some t.status;
  status = parked;
  next_check_at = none;
  version = t.version + 1;
}

-- The row that was held, as it comes back: a task that was in progress is due 120 seconds later.
abbrev pub resumed : ℕ → Task → Task
resumed now t =
    let live = is_in_progress t.status in
    record t {
      prior_status = some t.status;
      last_heartbeat_at = if live then some now else t.last_heartbeat_at;
      last_progress_at = if live then some now else t.last_progress_at;
      next_check_at = if live then some (now + 120) else none;
      version = t.version + 1 + 1;
    }

-- On a keyed board, for a task that is there: either its status can be parked, and parking returns it
-- held, parking it a second time is refused, and unparking gives back the task with the status that it
-- had, with that status as its prior status, a new check time, its version raised by two, for a task
-- that was in progress new heartbeat and progress times, and all other modelled columns as they were;
-- or it cannot, and parking returns nothing and changes nothing.
pub park_unpark :
    (now id : ℕ) (b : Board) (t : Task)
    → IsKeyedBoard b
    → get_row id b.tasks ≡ some t
    → let after = park_task id b in
      ((is_parkable t.status ≡ true)
        × (after.0 ≡ some (held t))
        × (park_task id after.1 ≡ (none, after.1))
        × ((unpark_task now id after.1).0 ≡ some (resumed now t))
        × (get_row id (unpark_task now id after.1).1.tasks ≡ some (resumed now t)))
      ⊎ ((is_parkable t.status ≡ false) × (after ≡ (none, b)))
unfolding park_task unpark_task
park_unpark now id b t k r =
    let same : t.id ≡ id = key-row key id b.tasks r in
    elim (Bool-cases (is_parkable t.status)) [
      | inl h ↦
          let (returned, stored) =
            update_hit id (parks id) held b (λ x e. ground arith) t k (λ x. refl) r
              (ground arith) in
          let k' = update-IsKeyedBoard id (parks id) held b (λ x e. ground arith) (λ x. refl) k in
          let b' = (update_returning (parks id) held b).1 in
          let again =
            update_miss id (parks id) held b' (λ x e. ground arith) (held t) k' stored
              (ground arith) in
          let (back, kept) =
            update_hit id (unparks id) (resume now) b' (λ x e. ground arith) (held t) k' (λ x. refl)
              stored (ground arith) in
          inl (h, returned, again, back, kept)
      | inr h ↦ inr (h, update_miss id (parks id) held b (λ x e. ground arith) t k r (ground arith))
    ]
