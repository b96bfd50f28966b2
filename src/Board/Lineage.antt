-- ===== src/Board/Lineage.antt =====
-- getTaskLineage of db.ts: the chain of parents from a task to the root, with a guard against cycles.
use mathlib.Core.Option
use threadwork.Prelude.{
  ℕ, zero, suc, Bool, true, false, Option, none, some, List, [], ◌∷◌, ◌==◌, any, length,
}
use threadwork.Board.Task.{Task, Board, get_row}

abbrev pub seen_in : ℕ → List ℕ → Bool
seen_in i seen = any (λ j. j == i) seen

-- The loop, with fuel; `none` means that the fuel ran out.
unfoldable pub walk : ℕ → List Task → Option ℕ → List ℕ → Option (List Task)
walk zero ts current seen = none
walk (suc fuel) ts none seen = some []
walk (suc fuel) ts (some i) seen = elim (seen_in i seen) [
  | true ↦ some []
  | false ↦ elim (get_row i ts) [
    | none ↦ some []
    | some t ↦ Option.map (λ rest. t ∷ rest) (walk fuel ts t.parent_task_id (i ∷ seen))
  ]
]

-- One round for each row, and two more.
unfoldable pub get_task_lineage : ℕ → Board → Option (List Task)
unfolding walk
get_task_lineage id b = walk (suc (suc (length b.tasks))) b.tasks (some id) []
