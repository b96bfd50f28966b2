-- ===== src/Board/Lifecycle/Final.antt =====
-- The final statuses of a row of the board: no call of TaskDB gives the row another status.
use mathlib.Core.Path.{subst}
use threadwork.Prelude.{ℕ, ◌≡◌, refl, Bool, true, false, none, some, List, ◌⊎◌, inl, inr}
use threadwork.Board.Task.{Task, Board, Status, completed, cancelled, done, is_parkable, get_row}
use threadwork.Board.Lifecycle.{
  ◌⟶◌, claim, go, complete, submit, cancel, hold, release, Moves, stay, next,
}
use threadwork.Board.Hygiene.{is_archivable}
use threadwork.Board.Lifecycle.Runs.{Event, run, IsWellFormed}
use threadwork.Board.Lifecycle.Rows.{run-Moves}

abbrev pub is_final : Status → Bool
is_final completed = true
is_final cancelled = true
is_final done = true
is_final _ = false

parkable-not-final : (s : Status) → is_parkable s ≡ true → is_final s ≡ false
parkable-not-final completed h = cc
parkable-not-final cancelled h = cc
parkable-not-final done h = cc
parkable-not-final _ h = refl

not_left : {s t : Status} → s ⟶ t → is_final s ≡ false
not_left claim = refl
not_left go = refl
not_left complete = refl
not_left submit = refl
not_left cancel = refl
not_left (hold {s = s} h) = parkable-not-final s h
not_left (release h) = refl

Moves-final : {s t : Status} → is_final s ≡ true → Moves s t → t ≡ s
Moves-final h stay = refl
Moves-final h (next m e) =
    let left_open = subst (λ x. is_final x ≡ false) (Moves-final h m) (not_left e) in cc

-- From a well-formed board, a task that is completed, cancelled or done never has another status,
-- whatever calls of TaskDB follow, hygiene included, in whatever order and at whatever times: its id
-- names a row with the same status, or, unless the status is 'done', hygiene has deleted the row and
-- its id names none.
pub final_for_ever :
    (es : List Event) (b : Board) (i : ℕ) (t : Task)
    → IsWellFormed b
    → get_row i b.tasks ≡ some t
    → is_final t.status ≡ true
    → ((u : Task) × (get_row i (run es b).tasks ≡ some u) × (u.status ≡ t.status))
      ⊎ ((get_row i (run es b).tasks ≡ none) × (is_archivable t.status ≡ true))
final_for_ever es b i t w r f = elim (run-Moves es b i t w r) [
  | inl (u, r', s', m) ↦ inl (u, r', Moves-final f m)
  | inr (gone, (s, m, ended)) ↦
      inr (gone, subst (λ x. is_archivable x ≡ true) (Moves-final f m) ended)
]
