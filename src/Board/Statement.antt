-- ===== src/Board/Statement.antt =====
-- What an UPDATE … WHERE id = ? … RETURNING * of TaskDB does on a keyed board.
use threadwork.Prelude.{
  ℕ, ◌≡◌, Bool, true, false, Option, none, some, ap, refl, find, Option-cases, Bool-cases, inl, inr,
}
use threadwork.Prelude.Table.{
  update-none, IsKeyed, KeepsKey, Names, find-row, find_missing, row-update, Evolves-update,
  Evolves-IsKeyed,
}
use threadwork.Board.Task.{Task, Board, get_row, update_returning}

abbrev pub key : Task → ℕ
key t = t.id

abbrev pub IsKeyedBoard : Board → Type 0
IsKeyedBoard b = IsKeyed key b.next_id b.tasks

module _ (i : ℕ) (p : Task → Bool) (f : Task → Task) (b : Board) (named : Names key i p) where
  -- Where the row passes the test it is written and returned.
  pub update_hit :
      (t : Task)
      → IsKeyedBoard b
      → KeepsKey key f
      → get_row i b.tasks ≡ some t
      → p t ≡ true
      → ((update_returning p f b).0 ≡ some (f t))
        × (get_row i (update_returning p f b).1.tasks ≡ some (f t))
  unfolding update_returning
  update_hit t k keeps r hit = (
    rw (find-row key b.next_id i p b.tasks t named k r, hit) refl,
    rw (row-update key i p f keeps b.tasks, r, hit) refl,
  )

  -- Where the row does not pass, or is not there, nothing changes.
  pub update_miss :
      (t : Task)
      → IsKeyedBoard b
      → get_row i b.tasks ≡ some t
      → p t ≡ false
      → update_returning p f b ≡ (none, b)
  unfolding update_returning
  update_miss t k r miss =
      let e : find p b.tasks ≡ none =
        rw (find-row key b.next_id i p b.tasks t named k r, miss) refl in
      rw (update-none p f b.tasks e, e) refl

  pub update_absent : get_row i b.tasks ≡ none → update_returning p f b ≡ (none, b)
  unfolding update_returning
  update_absent r =
      let e = find_missing key i p b.tasks named r in rw (update-none p f b.tasks e, e) refl

  -- A row that was returned is the one with the id, and passed the test.
  pub update_found :
      (u : Task)
      → IsKeyedBoard b
      → (update_returning p f b).0 ≡ some u
      → (t : Task) × (get_row i b.tasks ≡ some t) × (p t ≡ true)
  update_found u k e = elim (Option-cases (get_row i b.tasks)) [
    | inl r ↦ let absent = ap (λ (o : Option Task × Board). o.0) (update_absent r) in cc
    | inr (t, r) ↦ elim (Bool-cases (p t)) [
      | inl hit ↦ (t, r, hit)
      | inr miss ↦ let missed = ap (λ (o : Option Task × Board). o.0) (update_miss t k r miss) in cc
    ]
  ]

  pub update-IsKeyedBoard :
      KeepsKey key f → IsKeyedBoard b → IsKeyedBoard (update_returning p f b).1
  unfolding update_returning
  update-IsKeyedBoard keeps k =
      Evolves-IsKeyed key (λ x y. Unit) b.next_id b.tasks _
        (Evolves-update key (λ x y. Unit) p f (λ x. tt) keeps (λ x h. tt) b.tasks) k
