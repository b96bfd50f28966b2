-- ===== src/Board/Ancestry.antt =====
-- The lineage of a task (getTaskLineage of db.ts): the loop ends, and walks up the parents.
use threadwork.Prelude.{
  ℕ, zero, suc, ◌+◌, ◌≤◌, ◌<◌, ◌≡◌, refl, Bool, true, false, ◌||◌, Option, none, some, List, [],
  ◌∷◌, ◌==◌, if◌then◌else◌, length, is_none, arith, inl, inr, Bool-cases, Option-cases,
}
use threadwork.Board.Task.{Task, Board, get_row}
use threadwork.Board.Lineage.{seen_in, walk, get_task_lineage}

-- A walk from `cur`: it lists the row of each id on the way up, no id twice and none of `seen`, and
-- stops at a missing parent, at a row that is not there, or at an id that it has listed.
abbrev pub IsWalk : List Task → Option ℕ → List ℕ → List Task → Type 0
IsWalk ts none seen [] = Unit
IsWalk ts (some i) seen [] = (seen_in i seen || is_none (get_row i ts)) ≡ true
IsWalk ts none seen (t ∷ l) = ⊥
IsWalk ts (some i) seen (t ∷ l) =
    (seen_in i seen ≡ false) × (get_row i ts ≡ some t) × IsWalk ts t.parent_task_id (i ∷ seen) l

-- How many rows have not been listed.
unseen : List ℕ → List Task → ℕ
unseen seen [] = 0
unseen seen (t ∷ ts) = unseen seen ts + (if seen_in t.id seen then 0 else 1)

unseen-le-length : (seen : List ℕ) (ts : List Task) → unseen seen ts ≤ length ts
unfolding unseen
unseen-le-length seen [] = omega arith
unseen-le-length seen (t ∷ ts) = ground (arith, unseen-le-length seen ts)

unseen_mono : (i : ℕ) (seen : List ℕ) (ts : List Task) → unseen (i ∷ seen) ts ≤ unseen seen ts
unfolding unseen
unseen_mono i seen [] = omega arith
unseen_mono i seen (t ∷ ts) = ground (arith, unseen_mono i seen ts)

gain :
    (m n : ℕ) (p q : Bool)
    → m ≤ n
    → p ≡ true
    → q ≡ false
    → (m + (if p then 0 else 1)) < (n + (if q then 0 else 1))
gain m n p q le e f = rw (e, f) (omega arith)

unseen_falls :
    (i : ℕ) (seen : List ℕ) (ts : List Task) (t : Task)
    → seen_in i seen ≡ false
    → get_row i ts ≡ some t
    → unseen (i ∷ seen) ts < unseen seen ts
unfolding unseen
unseen_falls i seen [] t fresh e = cc
unseen_falls i seen (x ∷ ts) t fresh e = elim (Bool-cases (x.id == i)) [
  | inl hit ↦
      let same : x.id ≡ i = ground arith in
      gain (unseen (i ∷ seen) ts) (unseen seen ts) (seen_in x.id (i ∷ seen)) (seen_in x.id seen)
        (unseen_mono i seen ts) (rw same (ground arith)) (rw same fresh)
  | inr miss ↦ ground (arith, unseen_falls i seen ts t fresh (rw miss at e))
]

walk-IsWalk :
    (fuel : ℕ) (ts : List Task) (cur : Option ℕ) (seen : List ℕ)
    → unseen seen ts < fuel
    → (l : List Task) × (walk fuel ts cur seen ≡ some l) × IsWalk ts cur seen l
unfolding walk
walk-IsWalk zero ts cur seen h = absurd (omega arith)
walk-IsWalk (suc fuel) ts none seen h = ([], refl, tt)
walk-IsWalk (suc fuel) ts (some i) seen h = elim (Bool-cases (seen_in i seen)) [
  | inl old ↦ ([], rw (walk, old) refl, rw old refl)
  | inr fresh ↦ elim (Option-cases (get_row i ts)) [
    | inl gone ↦ ([], rw (walk, fresh, gone) refl, rw (fresh, gone) refl)
    | inr (t, r) ↦
        let (l, run, good) =
          walk-IsWalk fuel ts t.parent_task_id (i ∷ seen)
            (let falls = unseen_falls i seen ts t fresh r in omega (arith, falls, h)) in
        (t ∷ l, rw (walk, fresh, r, run) refl, rw r (fresh, refl, good))
  ]
]

-- The lineage of a task is computed for every board, cycles of parents included: it is the walk up
-- the parents from the task, without repetition, to a row without a parent, to a parent that is not
-- on the board, or to a row that was listed before.
pub get_task_lineage-IsWalk :
    (id : ℕ) (b : Board)
    → (l : List Task) × (get_task_lineage id b ≡ some l) × IsWalk b.tasks (some id) [] l
unfolding get_task_lineage
get_task_lineage-IsWalk id b =
    walk-IsWalk (suc (suc (length b.tasks))) b.tasks (some id) []
      (omega (arith, unseen-le-length [] b.tasks))
