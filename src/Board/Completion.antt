-- ===== src/Board/Completion.antt =====
-- Completion with the check of the children (completeTaskWithFinalizerCheck and
-- forceCompleteTaskWithFinalizerCheck of db.ts), on every outcome.
use threadwork.Prelude.{
  ℕ, ◌≡◌, refl, ap, ◌∙◌, String, Bool, true, false, ◌&&◌, Option, none, some, List, [], ◌∷◌, ◌==◌,
  if◌then◌else◌, keep, keep-keep, keep-oldest_first, any-oldest_first, arith,
}
use threadwork.Prelude.Table.{row-update, any-keep, key-row, Evolves-IsKeyed, Evolves-update}
use threadwork.Board.Task.{Task, Board, completed, review, is_in_progress, get_row}
use threadwork.Board.Finalizer.{
  close_children, closed_row, open_children, is_open_child, Completion, error, not_found, task,
  finalize, settle, finish, finished_row, terminal_status, is_card_lifecycle_row,
}
use threadwork.Board.Transitions.{Outcome}
use threadwork.Board.Statement.{key, IsKeyedBoard, update_hit, update_miss}
use threadwork.Board.Closing.{
  is_kept, is_synthetic, ids, is_closed_by, next_id-close_children, close_children-ids,
  tasks-close_children,
}

-- The board after the loop.
abbrev swept : ℕ → ℕ → Board → Board
swept now id b = (close_children now (open_children id b) b).2

-- An open synthetic child of the task in progress.
abbrev pub is_running_child : ℕ → Task → Bool
is_running_child id t = is_open_child id t && t.is_synthetic && is_in_progress t.status

closed_by-open_children :
    (id i : ℕ) (b : Board) (t : Task)
    → IsKeyedBoard b
    → get_row i b.tasks ≡ some t
    → is_closed_by (open_children id b) t ≡ is_running_child id t
unfolding open_children
closed_by-open_children id i b t k r =
    let e : t.id ≡ i = key-row key i b.tasks r in
    rw
      (
        e,
        keep-oldest_first is_synthetic (keep (is_open_child id) b.tasks),
        any-oldest_first (λ c. c.id == i) (keep is_synthetic (keep (is_open_child id) b.tasks)),
        keep-keep is_synthetic (is_open_child id) b.tasks,
      )
      (rw (any-keep key b.next_id i (λ x. is_open_child id x && is_synthetic x) b.tasks t k r) refl)

-- The row of a child that is closed with its parent: completed now, with a text that says so, and out
-- of the watchdog's reach. All else is as it was.
abbrev pub auto_closed : ℕ → Task → Task
auto_closed now t = record t {
  status = completed;
  result = some "Auto-closed: parent task completed";
  completed_at = some now;
  next_check_at = none;
}

-- A row after the loop: a running child is closed, and every other row is as it was.
row-swept :
    (now id i : ℕ) (b : Board) (t : Task)
    → IsKeyedBoard b
    → get_row i b.tasks ≡ some t
    → get_row i (swept now id b).tasks
      ≡ some (if is_running_child id t then auto_closed now t else t)
unfolding closed_row
row-swept now id i b t k r = rw (tasks-close_children now (open_children id b) b) (
    row-update key i (is_closed_by (open_children id b)) (closed_row now) (λ x. refl) b.tasks
    ∙ rw r
        (ap (λ c. some (if c then closed_row now t else t)) (closed_by-open_children id i b t k r)))

swept-IsKeyedBoard : (now id : ℕ) (b : Board) → IsKeyedBoard b → IsKeyedBoard (swept now id b)
swept-IsKeyedBoard now id b k =
    let cs = open_children id b in
    rw (tasks-close_children now cs b, next_id-close_children now cs b)
      (Evolves-IsKeyed key (λ x y. Unit) b.next_id b.tasks _
        (Evolves-update key (λ x y. Unit) (is_closed_by cs) (closed_row now) (λ x. tt)
          (unfold closed_row in λ x. refl) (λ x h. tt) b.tasks)
        k)

finalize_lem :
    (now id : ℕ) (result : String) (owned : Task → Bool) (b : Board)
    → let kids = open_children id b in
      finalize now id result owned b
      ≡ settle
          (ids (keep is_synthetic kids))
          (ids (keep is_kept kids))
          (swept now id b)
          (finish now id result owned)
unfolding finalize
finalize_lem now id result owned b =
    let kids = open_children id b in
    let (h, k) = close_children-ids now kids b in
    λ i. settle (h i) (k i) (swept now id b) (finish now id result owned)

-- A task with an open child that is neither synthetic nor an addendum is not completed: the answer
-- is the error that lists exactly those children. The synthetic children in progress are closed all
-- the same, and no other row changes.
pub finalize_blocked :
    (now id : ℕ) (result : String) (owned : Task → Bool) (b : Board) (c : Task) (cs : List Task)
    (i : ℕ) (t : Task)
    → IsKeyedBoard b
    → keep is_kept (open_children id b) ≡ c ∷ cs
    → get_row i b.tasks ≡ some t
    → let after = finalize now id result owned b in
      (after.0 ≡ error (ids (c ∷ cs)))
      × (get_row i after.1.tasks ≡ some (if is_running_child id t then auto_closed now t else t))
unfolding settle
finalize_blocked now id result owned b c cs i t k e r =
    rw (finalize_lem now id result owned b, e) (refl, row-swept now id i b t k r)

-- The last UPDATE finds the task as it was, unless the task is a running child of itself.
target-swept :
    (now id : ℕ) (b : Board) (t : Task)
    → IsKeyedBoard b
    → get_row id b.tasks ≡ some t
    → is_running_child id t ≡ false
    → get_row id (swept now id b).tasks ≡ some t
target-swept now id b t k r h = row-swept now id id b t k r ∙ rw h refl

abbrev is_finished_by : ℕ → (Task → Bool) → Task → Bool
is_finished_by id owned t = t.id == id && is_in_progress t.status && owned t

-- The row of a task that is completed: 'review' for a card and 'completed' for any other, with the
-- result and the time, and with the check time and the block cleared. All else is as it was.
abbrev pub final_row : ℕ → String → Task → Task
final_row now result t = record t {
  status = if is_card_lifecycle_row t then review else completed;
  result = some result;
  completed_at = some now;
  next_check_at = none;
  blocked_at = none;
  blocked_reason = none;
}

finished_row_lem :
    (now : ℕ) (result : String) (t : Task)
    → finished_row now (if is_card_lifecycle_row t then review else completed) result t
      ≡ final_row now result t
unfolding finished_row
finished_row_lem now result t = refl

finish_done :
    (now id : ℕ) (result : String) (owned : Task → Bool) (b : Board) (t : Task)
    → IsKeyedBoard b
    → get_row id b.tasks ≡ some t
    → is_finished_by id owned t ≡ true
    → ((finish now id result owned b).0 ≡ some (final_row now result t))
      × (get_row id (finish now id result owned b).1.tasks ≡ some (final_row now result t))
unfolding finish
finish_done now id result owned b t k r hit =
    let s = terminal_status (get_row id b.tasks) in
    let target : s ≡ (if is_card_lifecycle_row t then review else completed) =
      unfold terminal_status in rw r refl in
    let found =
      update_hit id (is_finished_by id owned) (finished_row now s result) b (λ x h. ground arith) t
        k (unfold finished_row in λ x. refl) r hit in
    let row = finished_row_lem now result t in
    (
      found.0 ∙ ap (λ x. some (finished_row now x result t)) target ∙ ap some row,
      found.1 ∙ ap (λ x. some (finished_row now x result t)) target ∙ ap some row,
    )

abbrev reported : List ℕ → Option Task → Completion
reported closed none = not_found
reported closed (some t) = task t closed

settle_free :
    (closed : List ℕ) (b : Board) (f : Board → Outcome)
    → settle closed [] b f ≡ (reported closed (f b).0, (f b).1)
unfolding settle
settle_free closed b f = refl

-- Completing a task in progress that is owned by the caller and has no open children but synthetic
-- ones and addenda, and is no running child of itself: the task goes to 'review' if it is a card and
-- to 'completed' if not, with the result and its end time, its check time and its block cleared, and
-- all else as it was; the answer is that row and the ids of the open synthetic children.
pub finalize_done :
    (now id : ℕ) (result : String) (owned : Task → Bool) (b : Board) (t : Task)
    → IsKeyedBoard b
    → get_row id b.tasks ≡ some t
    → is_running_child id t ≡ false
    → is_in_progress t.status ≡ true
    → owned t ≡ true
    → keep is_kept (open_children id b) ≡ []
    → let after = finalize now id result owned b in
      let u = final_row now result t in
      (after.0 ≡ task u (ids (keep is_synthetic (open_children id b))))
      × (get_row id after.1.tasks ≡ some u)
finalize_done now id result owned b t k r self busy mine e =
    let b' = swept now id b in
    let same : t.id ≡ id = key-row key id b.tasks r in
    let (returned, stored) =
      finish_done now id result owned b' t (swept-IsKeyedBoard now id b k)
        (target-swept now id b t k r self) (ground arith) in
    rw (finalize_lem now id result owned b, e, settle_free)
      (ap (reported (ids (keep is_synthetic (open_children id b)))) returned, stored)

finish_refused :
    (now id : ℕ) (result : String) (owned : Task → Bool) (b : Board) (t : Task)
    → IsKeyedBoard b
    → get_row id b.tasks ≡ some t
    → is_finished_by id owned t ≡ false
    → finish now id result owned b ≡ (none, b)
unfolding finish
finish_refused now id result owned b t k r miss =
    let s = terminal_status (get_row id b.tasks) in
    update_miss id (is_finished_by id owned) (finished_row now s result) b (λ x h. ground arith) t k
      r miss

-- A completion that the caller has no right to, or of a task that is not in progress, where the task
-- has no open children but synthetic ones and addenda and is no running child of itself: it still
-- closes the running synthetic children of the task, and changes no other row; the answer is neither
-- a task nor an error.
pub finalize_refused :
    (now id : ℕ) (result : String) (owned : Task → Bool) (b : Board) (t : Task) (i : ℕ) (c : Task)
    → IsKeyedBoard b
    → get_row id b.tasks ≡ some t
    → is_running_child id t ≡ false
    → (is_in_progress t.status && owned t) ≡ false
    → keep is_kept (open_children id b) ≡ []
    → get_row i b.tasks ≡ some c
    → let after = finalize now id result owned b in
      (after.0 ≡ not_found)
      × (get_row i after.1.tasks ≡ some (if is_running_child id c then auto_closed now c else c))
finalize_refused now id result owned b t i c k r self refused e q =
    let missed =
      finish_refused now id result owned (swept now id b) t (swept-IsKeyedBoard now id b k)
        (target-swept now id b t k r self) (ground arith) in
    rw (finalize_lem now id result owned b, e, settle_free, missed)
      (refl, row-swept now id i b c k q)
