-- ===== src/Board/Lifecycle/Rows.antt =====
-- What becomes of a row of the board: it moves along the graph of the statuses, and after its end
-- runHygiene of db.ts may delete it.
use threadwork.Prelude.{
  ℕ, ◌<◌, ◌≡◌, true, false, none, some, List, [], ◌∷◌, arith, inl, inr, ◌⊎◌, Bool-cases, ◌==◌,
  All-find,
}
use threadwork.Prelude.Table.{
  find_above, row-Evolves, row-Evolves_missing, row-keep, row-keep_missing, row-below,
}
use threadwork.Board.Task.{Task, Board, Status, get_row}
use threadwork.Board.Hygiene.{is_archivable}
use threadwork.Board.Lifecycle.{Moves, Moves-trans, stay, IsSound, Follows, Follows-refl, key}
use threadwork.Board.Lifecycle.Runs.{
  Grows, same, more, fewer, exec, exec-Grows, Event, run, IsWellFormed, Grows-IsWellFormed,
}

-- An id below the next one that no row has.
abbrev IsGone : ℕ → Board → Type 0
IsGone i b = (i < b.next_id) × (get_row i b.tasks ≡ none)

no_row :
    (b : Board) (i : ℕ) {t : Task} → i ≡ b.next_id → IsWellFormed b → get_row i b.tasks ≡ some t → ⊥
no_row b i e w r =
    let none_there =
      find_above key i (λ y. key y == i) b.tasks (λ y h. ground arith) (rw e w.keyed) in
    cc

-- A row goes on as another that follows it, or it had ended and is gone.
row-Grows :
    {b b' : Board} (i : ℕ) (t : Task)
    → Grows b b'
    → IsWellFormed b
    → get_row i b.tasks ≡ some t
    → ((u : Task) × (get_row i b'.tasks ≡ some u) × Follows t u)
      ⊎ (IsGone i b' × (is_archivable t.status ≡ true))
row-Grows {b} {b' = b'} i t (same e h) w r = inl (row-Evolves key Follows i b.tasks b'.tasks t h r)
row-Grows {b} i t (more x e s) w r = elim (Bool-cases (x.id == i)) [
  | inl hit ↦ absurd (no_row b i (ground arith) w r)
  | inr miss ↦ inl (t, rw miss r, Follows-refl t)
]
row-Grows {b} i t (fewer q ended) w r =
    let left = row-keep key b.next_id i q b.tasks t w.keyed r in
    elim (Bool-cases (q t)) [
      | inl kept ↦ inl (t, (rw kept at left), Follows-refl t)
      | inr deleted ↦
          inr
            ((row-below key b.next_id i b.tasks t w.keyed r, (rw deleted at left)), ended t deleted)
    ]

IsGone-Grows : {b b' : Board} (i : ℕ) → Grows b b' → IsGone i b → IsGone i b'
IsGone-Grows {b} {b' = b'} i (same e h) (below, gone) =
    (rw e below, row-Evolves_missing key Follows i b.tasks b'.tasks h gone)
IsGone-Grows {b} i (more x e s) (below, gone) =
    let miss : (x.id == i) ≡ false = ground (arith, e, below) in
    (omega (arith, below), rw miss gone)
IsGone-Grows {b} i (fewer q ended) (below, gone) = (below, row-keep_missing key i q b.tasks gone)

run_gone : (es : List Event) (b : Board) (i : ℕ) → IsGone i b → get_row i (run es b).tasks ≡ none
unfolding run
run_gone [] b i (below, gone) = gone
run_gone (e ∷ es) b i g =
    run_gone es (exec e.at e.op b e.sessions) i
      (IsGone-Grows i (exec-Grows e.at e.op b e.sessions) g)

-- What becomes of a row with a status.
abbrev pub Fate : Status → ℕ → Board → Type 0
Fate from i b =
    ((u : Task) × (get_row i b.tasks ≡ some u) × IsSound u × Moves from u.status)
    ⊎ ((get_row i b.tasks ≡ none) × ((s : Status) × Moves from s × (is_archivable s ≡ true)))

run_row :
    (es : List Event) (b : Board) (i : ℕ) (t : Task) (from : Status)
    → IsWellFormed b
    → get_row i b.tasks ≡ some t
    → IsSound t
    → Moves from t.status
    → Fate from i (run es b)
unfolding run
run_row [] b i t from w r s m = inl (t, r, s, m)
run_row (e ∷ es) b i t from w r s m =
    let grown = exec-Grows e.at e.op b e.sessions in
    let b' = exec e.at e.op b e.sessions in
    elim (row-Grows i t grown w r) [
      | inl (u, r', f) ↦
          run_row es b' i u from (Grows-IsWellFormed grown w) r' (f.sound s)
            (Moves-trans m (f.moves s))
      | inr (gone, ended) ↦ inr (run_gone es b' i gone, (t.status, m, ended))
    ]

pub run-Moves :
    (es : List Event) (b : Board) (i : ℕ) (t : Task)
    → IsWellFormed b
    → get_row i b.tasks ≡ some t
    → ((u : Task) × (get_row i (run es b).tasks ≡ some u) × IsSound u × Moves t.status u.status)
      ⊎ ((get_row i (run es b).tasks ≡ none)
          × ((s : Status) × Moves t.status s × (is_archivable s ≡ true)))
run-Moves es b i t w r =
    run_row es b i t t.status w r (All-find IsSound (λ y. y.id == i) b.tasks w.sound r) stay
