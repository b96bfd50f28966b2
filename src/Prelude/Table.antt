-- ===== src/Prelude/Table.antt =====
-- A table of rows with a numeric primary key, and the UPDATE and SELECT statements that read it: how
-- rows change, and what a WHERE clause that names a row by its key finds.
use mathlib.Core.Path.{◌≡◌, refl, sym, ◌∙◌, subst, ap}
use mathlib.Core.Logic.{inl, inr}
use mathlib.Core.Bool.{Bool, true, false, ◌||◌}
use mathlib.Core.Option
use mathlib.Core.Option.{Option, none, some}
use mathlib.Core.List.{List, [], ◌∷◌}
use native.Mathlib.Omega.{arith}
use Prim.Native.Nat.{ℕ, ◌≤◌, ◌<◌}
use threadwork.Prelude.Tests.{◌==◌, if◌then◌else◌, Bool-cases}
use threadwork.Prelude.Lists.{find, any, keep, find-eq-some, find-eq-none}

module _ {A : Type 0} where
  -- UPDATE … SET f WHERE p
  unfoldable pub update : (A → Bool) → (A → A) → List A → List A
  update p f [] = []
  update p f (t ∷ ts) = (if p t then f t else t) ∷ update p f ts

  -- An UPDATE that finds no row changes nothing.
  pub update-none : (p : A → Bool) (f : A → A) (ts : List A) → find p ts ≡ none → update p f ts ≡ ts
  unfolding update
  update-none p f [] e = refl
  update-none p f (x ∷ ts) e =
      let (miss, e') = find-eq-none p x ts e in rw miss (ap (◌∷◌ x) (update-none p f ts e'))

  pub update_never :
      (p : A → Bool) (f : A → A) → ((t : A) → p t ≡ false) → (ts : List A) → update p f ts ≡ ts
  unfolding update
  update_never p f none_passes [] = refl
  update_never p f none_passes (t ∷ ts) =
      rw (none_passes t) (ap (◌∷◌ t) (update_never p f none_passes ts))

  -- Two UPDATEs with the same effect, where a row that the first has written does not pass the second.
  pub update-update :
      (p q : A → Bool) (f : A → A)
      → ((t : A) → p t ≡ true → q (f t) ≡ false)
      → (ts : List A) → update q f (update p f ts) ≡ update (λ t. p t || q t) f ts
  unfolding update
  update-update p q f once [] = refl
  update-update p q f once (t ∷ ts) = elim (Bool-cases (p t)) [
    | inl e ↦ rw (e, once t e) (ap (◌∷◌ (f t)) (update-update p q f once ts))
    | inr e ↦ rw e (ap (◌∷◌ (if q t then f t else t)) (update-update p q f once ts))
  ]

  pub update_cong :
      (p q : A → Bool) (f : A → A)
      → ((t : A) → p t ≡ q t)
      → (ts : List A) → update p f ts ≡ update q f ts
  unfolding update
  update_cong p q f same [] = refl
  update_cong p q f same (t ∷ ts) =
      rw (same t) (ap (◌∷◌ (if q t then f t else t)) (update_cong p q f same ts))

module _ {A : Type 0} (key : A → ℕ) where
  -- Keys fall from the newest row to the oldest, and stay below `n`.
  abbrev pub IsKeyed : ℕ → List A → Type 0
  IsKeyed n [] = Unit
  IsKeyed n (t ∷ ts) = (key t < n) × IsKeyed (key t) ts

  -- `f` may change anything but the key.
  abbrev pub KeepsKey : (A → A) → Type 0
  KeepsKey f = (t : A) → key (f t) ≡ key t

  -- `p` names the row `i`, as `WHERE id = ? AND …` does.
  abbrev pub Names : ℕ → (A → Bool) → Type 0
  Names i p = (t : A) → p t ≡ true → key t ≡ i

  -- Row by row, the keys are the same and `R` holds of the old row and the new one.
  abbrev pub Evolves : (A → A → Type 0) → List A → List A → Type 0
  Evolves R [] [] = Unit
  Evolves R [] (u ∷ us) = ⊥
  Evolves R (t ∷ ts) [] = ⊥
  Evolves R (t ∷ ts) (u ∷ us) = (key u ≡ key t) × R t u × Evolves R ts us

  pub Evolves-refl : (R : A → A → Type 0) → ((t : A) → R t t) → (ts : List A) → Evolves R ts ts
  Evolves-refl R reflexive [] = tt
  Evolves-refl R reflexive (t ∷ ts) = (refl, reflexive t, Evolves-refl R reflexive ts)

  pub Evolves-update :
      (R : A → A → Type 0) (p : A → Bool) (f : A → A)
      → ((t : A) → R t t)
      → KeepsKey f
      → ((t : A) → p t ≡ true → R t (f t))
      → (ts : List A) → Evolves R ts (update p f ts)
  unfolding update
  Evolves-update R p f reflexive k h [] = tt
  Evolves-update R p f reflexive k h (t ∷ ts) = elim (Bool-cases (p t)) [
    | inl e ↦ rw e (k t, h t e, Evolves-update R p f reflexive k h ts)
    | inr e ↦ rw e (refl, reflexive t, Evolves-update R p f reflexive k h ts)
  ]

  pub Evolves-trans :
      (R : A → A → Type 0)
      → ((t u v : A) → R t u → R u v → R t v)
      → (ts us vs : List A) → Evolves R ts us
      → Evolves R us vs
      → Evolves R ts vs
  Evolves-trans R transitive [] [] [] h k = tt
  Evolves-trans R transitive [] [] (v ∷ vs) h k = k
  Evolves-trans R transitive [] (u ∷ us) vs h k = absurd h
  Evolves-trans R transitive (t ∷ ts) [] vs h k = absurd h
  Evolves-trans R transitive (t ∷ ts) (u ∷ us) [] h k = absurd k
  Evolves-trans R transitive (t ∷ ts) (u ∷ us) (v ∷ vs) (e, r, h) (e', r', k) =
      (e' ∙ e, transitive t u v r r', Evolves-trans R transitive ts us vs h k)

  pub Evolves-IsKeyed :
      (R : A → A → Type 0) (n : ℕ) (ts us : List A) → Evolves R ts us → IsKeyed n ts → IsKeyed n us
  Evolves-IsKeyed R n [] [] h k = tt
  Evolves-IsKeyed R n [] (u ∷ us) h k = absurd h
  Evolves-IsKeyed R n (t ∷ ts) [] h k = absurd h
  Evolves-IsKeyed R n (t ∷ ts) (u ∷ us) (e, r, h) (lt, k) =
      (rw e lt, rw e (Evolves-IsKeyed R (key t) ts us h k))

  -- SELECT * … WHERE id = ?
  abbrev pub row : ℕ → List A → Option A
  row i ts = find (λ t. key t == i) ts

  -- The row with a key is changed as `R` allows.
  pub row-Evolves :
      (R : A → A → Type 0) (i : ℕ) (ts us : List A) (t : A)
      → Evolves R ts us
      → row i ts ≡ some t
      → (u : A) × (row i us ≡ some u) × R t u
  row-Evolves R i [] us t h e = cc
  row-Evolves R i (x ∷ ts) [] t h e = absurd h
  row-Evolves R i (x ∷ ts) (u ∷ us) t (k, r, h) e = elim (find-eq-some (λ y. key y == i) x ts e) [
    | inl (hit, same) ↦ (u, rw (k, hit) refl, subst (λ y. R y u) same r)
    | inr (miss, e') ↦ let (v, f, q) = row-Evolves R i ts us t h e' in (v, rw (k, miss) f, q)
  ]

  pub IsKeyed-mono : (n m : ℕ) (ts : List A) → n ≤ m → IsKeyed n ts → IsKeyed m ts
  IsKeyed-mono n m [] h k = tt
  IsKeyed-mono n m (t ∷ ts) h (lt, k) = (omega arith, k)

  -- A WHERE clause that names a row above the keys of the table finds nothing.
  pub find_above :
      (i : ℕ) (p : A → Bool) (ts : List A) → Names i p → IsKeyed i ts → find p ts ≡ none
  find_above i p [] named k = refl
  find_above i p (t ∷ ts) named (lt, k) = elim (Bool-cases (p t)) [
    | inl e ↦ absurd (omega (arith, named t e))
    | inr e ↦ rw e (find_above i p ts named (IsKeyed-mono (key t) i ts (omega arith) k))
  ]

  find_first :
      (i : ℕ) (p : A → Bool) (x : A) (ts : List A)
      → Names i p
      → IsKeyed i ts
      → find p (x ∷ ts) ≡ (if p x then some x else none)
  find_first i p x ts named k = elim (Bool-cases (p x)) [
    | inl q ↦ rw q refl
    | inr q ↦ rw q (find_above i p ts named k)
  ]

  -- In a keyed table a WHERE clause that names the row `i` finds that row or nothing.
  pub find-row :
      (n i : ℕ) (p : A → Bool) (ts : List A) (t : A)
      → Names i p
      → IsKeyed n ts
      → row i ts ≡ some t
      → find p ts ≡ (if p t then some t else none)
  find-row n i p [] t named k e = cc
  find-row n i p (x ∷ ts) t named (lt, k) e = elim (find-eq-some (λ y. key y == i) x ts e) [
    | inl (hit, same) ↦
        subst (λ y. find p (x ∷ ts) ≡ (if p y then some y else none)) same
          (find_first i p x ts named (let same_key : key x ≡ i = ground arith in rw same_key at k))
    | inr (miss, e') ↦ elim (Bool-cases (p x)) [
      | inl q ↦ absurd (let same_key : key x ≡ i = named x q in ground arith)
      | inr q ↦ rw q (find-row (key x) i p ts t named k e')
    ]
  ]

  pub find_missing :
      (i : ℕ) (p : A → Bool) (ts : List A) → Names i p → row i ts ≡ none → find p ts ≡ none
  find_missing i p [] named e = refl
  find_missing i p (x ∷ ts) named e =
      let (miss, e') = find-eq-none (λ y. key y == i) x ts e in
      elim (Bool-cases (p x)) [
        | inl q ↦ absurd (let same_key : key x ≡ i = named x q in ground (arith, miss))
        | inr q ↦ rw q (find_missing i p ts named e')
      ]

  -- After an UPDATE, the row with a key is the old one, changed if it passes the test.
  pub row-update :
      (i : ℕ) (p : A → Bool) (f : A → A)
      → KeepsKey f
      → (ts : List A) → row i (update p f ts) ≡ Option.map (λ t. if p t then f t else t) (row i ts)
  unfolding update
  row-update i p f k [] = refl
  row-update i p f k (x ∷ ts) = elim (Bool-cases (p x)) [
    | inl q ↦ elim (Bool-cases (key x == i)) [
      | inl hit ↦ rw (q, k x, hit) (rw q refl)
      | inr miss ↦ rw (q, k x, miss) (row-update i p f k ts)
    ]
    | inr q ↦ elim (Bool-cases (key x == i)) [
      | inl hit ↦ rw (q, hit) (rw q refl)
      | inr miss ↦ rw (q, miss) (row-update i p f k ts)
    ]
  ]

  -- The row that was found has the key that was asked for.
  pub key-row : (i : ℕ) (ts : List A) {t : A} → row i ts ≡ some t → key t ≡ i
  key-row i [] e = cc
  key-row i (x ∷ ts) {t} e = elim (find-eq-some (λ y. key y == i) x ts e) [
    | inl (hit, same) ↦ ap key (sym same) ∙ (let found : key x ≡ i = ground (arith, hit) in found)
    | inr (miss, e') ↦ key-row i ts e'
  ]

  any_above :
      (i : ℕ) (q : A → Bool) (ts : List A)
      → IsKeyed i ts
      → any (λ t. key t == i) (keep q ts) ≡ false
  any_above i q [] k = refl
  any_above i q (t ∷ ts) (lt, k) =
      ground (arith, any_above i q ts (IsKeyed-mono (key t) i ts (omega arith) k))

  any_first :
      (i : ℕ) (q : A → Bool) (x : A) (ts : List A)
      → (key x == i) ≡ true
      → IsKeyed i ts
      → any (λ y. key y == i) (keep q (x ∷ ts)) ≡ q x
  any_first i q x ts hit k = elim (Bool-cases (q x)) [
    | inl e ↦ rw e (rw hit refl)
    | inr e ↦ rw e (any_above i q ts k)
  ]

  -- A key is among the rows that a SELECT keeps exactly if its row passes the test.
  pub any-keep :
      (n i : ℕ) (q : A → Bool) (ts : List A) (t : A)
      → IsKeyed n ts
      → row i ts ≡ some t
      → any (λ x. key x == i) (keep q ts) ≡ q t
  any-keep n i q [] t k e = cc
  any-keep n i q (x ∷ ts) t (lt, k) e = elim (find-eq-some (λ y. key y == i) x ts e) [
    | inl (hit, same) ↦
        let same_key : key x ≡ i = ground (arith, hit) in
        subst (λ y. any (λ x. key x == i) (keep q (x ∷ ts)) ≡ q y) same
          (any_first i q x ts hit (rw same_key at k))
    | inr (miss, e') ↦ ground (arith, miss, any-keep (key x) i q ts t k e')
  ]

  -- A DELETE of the rows that fail a test leaves the table keyed.
  pub keep-IsKeyed : (n : ℕ) (q : A → Bool) (ts : List A) → IsKeyed n ts → IsKeyed n (keep q ts)
  keep-IsKeyed n q [] k = tt
  keep-IsKeyed n q (t ∷ ts) (lt, k) = elim (Bool-cases (q t)) [
    | inl e ↦ rw e (lt, keep-IsKeyed (key t) q ts k)
    | inr e ↦ rw e (IsKeyed-mono (key t) n (keep q ts) (omega arith) (keep-IsKeyed (key t) q ts k))
  ]

  -- No row with a key comes up by a DELETE.
  pub row-keep_missing :
      (i : ℕ) (q : A → Bool) (ts : List A) → row i ts ≡ none → row i (keep q ts) ≡ none
  row-keep_missing i q [] e = refl
  row-keep_missing i q (x ∷ ts) e =
      let (miss, e') = find-eq-none (λ y. key y == i) x ts e in
      elim (Bool-cases (q x)) [
        | inl h ↦ rw h (rw miss (row-keep_missing i q ts e'))
        | inr h ↦ rw h (row-keep_missing i q ts e')
      ]

  -- After a DELETE, the row with a key is the old one if it passes the test, and gone if not.
  pub row-keep :
      (n i : ℕ) (q : A → Bool) (ts : List A) (t : A)
      → IsKeyed n ts
      → row i ts ≡ some t
      → row i (keep q ts) ≡ (if q t then some t else none)
  row-keep n i q [] t k e = cc
  row-keep n i q (x ∷ ts) t (lt, k) e = elim (find-eq-some (λ y. key y == i) x ts e) [
    | inl (hit, same) ↦
        subst (λ y. row i (keep q (x ∷ ts)) ≡ (if q y then some y else none)) same
          (elim (Bool-cases (q x)) [
            | inl h ↦ rw h (rw hit refl)
            | inr h ↦
                let same_key : key x ≡ i = ground (arith, hit) in
                let missing =
                  find_above i (λ y. key y == i) ts (λ y g. ground arith) (rw same_key at k) in
                rw h (row-keep_missing i q ts missing)
          ])
    | inr (miss, e') ↦ elim (Bool-cases (q x)) [
      | inl h ↦ rw h (rw miss (row-keep (key x) i q ts t k e'))
      | inr h ↦ rw h (row-keep (key x) i q ts t k e')
    ]
  ]

  -- A key that no row has is not taken by rows that change.
  pub row-Evolves_missing :
      (R : A → A → Type 0) (i : ℕ) (ts us : List A)
      → Evolves R ts us
      → row i ts ≡ none
      → row i us ≡ none
  row-Evolves_missing R i [] [] h e = refl
  row-Evolves_missing R i [] (u ∷ us) h e = absurd h
  row-Evolves_missing R i (t ∷ ts) [] h e = absurd h
  row-Evolves_missing R i (t ∷ ts) (u ∷ us) (k, r, h) e =
      let (miss, e') = find-eq-none (λ y. key y == i) t ts e in
      rw (k, miss) (row-Evolves_missing R i ts us h e')

  -- The key of a row that was found is below the next one.
  pub row-below : (n i : ℕ) (ts : List A) (t : A) → IsKeyed n ts → row i ts ≡ some t → i < n
  row-below n i [] t k e = cc
  row-below n i (x ∷ ts) t (lt, k) e = elim (find-eq-some (λ y. key y == i) x ts e) [
    | inl (hit, same) ↦ ground (arith, hit, lt)
    | inr (miss, e') ↦ omega (arith, lt, row-below (key x) i ts t k e')
  ]
