-- ===== src/Board/Closing.antt =====
-- The loop of completeTaskWithFinalizerCheck over the open children, as one SELECT and one UPDATE.
use threadwork.Prelude.{
  ℕ, ◌≡◌, refl, ap, ◌∙◌, sym, Bool, true, false, not, ◌&&◌, ◌||◌, List, [], ◌∷◌, map, ◌==◌,
  if◌then◌else◌, any, keep, arith, inl, inr, Bool-cases,
}
use threadwork.Prelude.Table.{update, update-update, update_cong, update_never}
use threadwork.Board.Task.{Task, Board, is_in_progress}
use threadwork.Board.Finalizer.{close_child, close_children, closed_row}

abbrev pub is_kept : Task → Bool
is_kept c = not c.is_synthetic

abbrev pub is_synthetic : Task → Bool
is_synthetic c = c.is_synthetic

abbrev pub ids : List Task → List ℕ
ids = map (λ c. c.id)

-- The rows that the loop closes: those in progress whose id is that of a synthetic child.
abbrev pub is_closed_by : List Task → Task → Bool
is_closed_by cs t = any (λ c. c.id == t.id) (keep is_synthetic cs) && is_in_progress t.status

pub close_children-ids :
    (now : ℕ) (cs : List Task) (b : Board)
    → ((close_children now cs b).0 ≡ ids (keep is_synthetic cs))
      × ((close_children now cs b).1 ≡ ids (keep is_kept cs))
unfolding close_children
close_children-ids now [] b = (refl, refl)
close_children-ids now (c ∷ cs) b = elim (Bool-cases c.is_synthetic) [
  | inl e ↦
      let (h, k) = close_children-ids now cs (close_child now c.id b) in rw e (ap (◌∷◌ c.id) h, k)
  | inr e ↦ let (h, k) = close_children-ids now cs b in rw e (h, ap (◌∷◌ c.id) k)
]

closes : Task → Task → Bool
closes c t = t.id == c.id && is_in_progress t.status

one_or_rest :
    (c : Task) (cs : List Task)
    → c.is_synthetic ≡ true
    → (t : Task) → (closes c t || is_closed_by cs t) ≡ is_closed_by (c ∷ cs) t
unfolding closes
one_or_rest c cs e t = ground arith

kept_adds_none :
    (c : Task) (cs : List Task)
    → c.is_synthetic ≡ false
    → (t : Task) → is_closed_by cs t ≡ is_closed_by (c ∷ cs) t
kept_adds_none c cs e t = ground arith

-- A row that one UPDATE has closed is not in progress for the next.
closed_once :
    (now : ℕ) (c : Task) (cs : List Task) (t : Task)
    → closes c t ≡ true
    → is_closed_by cs (closed_row now t) ≡ false
unfolding closes closed_row
closed_once now c cs t h = ground arith

-- The board after the loop, one round unrolled.
round :
    (now : ℕ) (c : Task) (cs : List Task) (b : Board) (s : Bool)
    → c.is_synthetic ≡ s
    → (close_children now (c ∷ cs) b).2
      ≡ (close_children now cs (if s then close_child now c.id b else b)).2
unfolding close_children
round now c cs b true e = rw e refl
round now c cs b false e = rw e refl

step_syn :
    (now : ℕ) (c : Task) (cs : List Task) (b : Board)
    → c.is_synthetic ≡ true
    → let b' = close_child now c.id b in
      (close_children now cs b').2.tasks ≡ update (is_closed_by cs) (closed_row now) b'.tasks
      → (close_children now (c ∷ cs) b).2.tasks
        ≡ update (is_closed_by (c ∷ cs)) (closed_row now) b.tasks
unfolding close_child closes
step_syn now c cs b e ih =
    let f = closed_row now in
    (ap (λ (x : Board). x.tasks) (round now c cs b true e)
      ∙ ih
      ∙ update-update (closes c) (is_closed_by cs) f (closed_once now c cs) b.tasks
      ∙ update_cong (λ t. closes c t || is_closed_by cs t) (is_closed_by (c ∷ cs)) f
          (one_or_rest c cs e) b.tasks)

step_kept :
    (now : ℕ) (c : Task) (cs : List Task) (b : Board)
    → c.is_synthetic ≡ false
    → (close_children now cs b).2.tasks ≡ update (is_closed_by cs) (closed_row now) b.tasks
    → (close_children now (c ∷ cs) b).2.tasks
      ≡ update (is_closed_by (c ∷ cs)) (closed_row now) b.tasks
step_kept now c cs b e ih =
    (ap (λ (x : Board). x.tasks) (round now c cs b false e)
      ∙ ih
      ∙ update_cong (is_closed_by cs) (is_closed_by (c ∷ cs)) (closed_row now)
          (kept_adds_none c cs e) b.tasks)

-- The loop writes the rows that one UPDATE over the ids of the synthetic children writes.
pub tasks-close_children :
    (now : ℕ) (cs : List Task) (b : Board)
    → (close_children now cs b).2.tasks ≡ update (is_closed_by cs) (closed_row now) b.tasks
unfolding close_children
tasks-close_children now [] b =
    sym (update_never (is_closed_by []) (closed_row now) (λ t. refl) b.tasks)
tasks-close_children now (c ∷ cs) b = elim (Bool-cases c.is_synthetic) [
  | inl e ↦ step_syn now c cs b e (tasks-close_children now cs (close_child now c.id b))
  | inr e ↦ step_kept now c cs b e (tasks-close_children now cs b)
]

-- No UPDATE draws an id.
pub next_id-close_children :
    (now : ℕ) (cs : List Task) (b : Board) → (close_children now cs b).2.next_id ≡ b.next_id
unfolding close_children
next_id-close_children now [] b = refl
next_id-close_children now (c ∷ cs) b = elim (Bool-cases c.is_synthetic) [
  | inl e ↦ rw e (next_id-close_children now cs (close_child now c.id b))
  | inr e ↦ rw e (next_id-close_children now cs b)
]
