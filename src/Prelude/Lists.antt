-- ===== src/Prelude/Lists.antt =====
-- Lists measured by native numbers, a predicate on all members, and searches.
use Prim.Native.Nat.{ℕ, zero, suc, ◌+◌, ◌-◌, ◌≤◌}
use mathlib.Core.Path.{◌≡◌, refl, subst, ap, ◌∙◌}
use mathlib.Core.Bool.{Bool, true, false, ◌&&◌, ◌||◌}
use mathlib.Core.List.{List, [], ◌∷◌, ◌++◌}
use mathlib.Core.Option.{Option, none, some}
use mathlib.Core.Logic.{◌⊎◌, inl, inr}
use native.Mathlib.Omega.{arith}
use threadwork.Prelude.Tests.{if◌then◌else◌, Bool-cases}

module _ {ℓ} {A : Type ℓ} where
  abbrev pub length : List A → ℕ
  length [] = 0
  length (x ∷ xs) = suc (length xs)

  abbrev pub drop : ℕ → List A → List A
  drop zero xs = xs
  drop (suc n) [] = []
  drop (suc n) (x ∷ xs) = drop n xs

  -- xs.filter(p)
  abbrev pub keep : (A → Bool) → List A → List A
  keep p [] = []
  keep p (x ∷ xs) = let rest = keep p xs in if p x then x ∷ rest else rest

  -- The first member that passes the test.
  abbrev pub find : (A → Bool) → List A → Option A
  find p [] = none
  find p (x ∷ xs) = let rest = find p xs in if p x then some x else rest

  abbrev pub any : (A → Bool) → List A → Bool
  any p [] = false
  any p (x ∷ xs) = let rest = any p xs in if p x then true else rest

  abbrev pub every : (A → Bool) → List A → Bool
  every p [] = true
  every p (x ∷ xs) = let rest = every p xs in if p x then rest else false

  -- Every member has the property.
  abbrev pub All {κ} : (A → Type κ) → List A → Type κ
  All Holds [] = Unit
  All Holds (a ∷ rest) = Holds a × All Holds rest

  pub length-append : (xs ys : List A) → length (xs ++ ys) ≡ length xs + length ys
  length-append [] ys = omega arith
  length-append (x ∷ xs) ys = omega (arith, length-append xs ys)

  pub length-drop : (n : ℕ) (xs : List A) → length (drop n xs) ≡ length xs - n
  length-drop zero xs = omega arith
  length-drop (suc n) [] = omega arith
  length-drop (suc n) (x ∷ xs) = omega (arith, length-drop n xs)

  pub length-keep : (p : A → Bool) (xs : List A) → length (keep p xs) ≤ length xs
  length-keep p [] = omega arith
  length-keep p (x ∷ xs) = ground (arith, length-keep p xs)

  pub All-append {κ} :
      (Holds : A → Type κ) (front back : List A)
      → All Holds front
      → All Holds back
      → All Holds (front ++ back)
  All-append Holds [] back of_front of_back = of_back
  All-append Holds (a ∷ front) back (of_a, of_front) of_back =
      (of_a, All-append Holds front back of_front of_back)

  pub find-eq-some :
      (p : A → Bool) (x : A) (xs : List A) {y : A}
      → find p (x ∷ xs) ≡ some y
      → ((p x ≡ true) × (x ≡ y)) ⊎ ((p x ≡ false) × (find p xs ≡ some y))
  find-eq-some p x xs {y} e = elim (Bool-cases (p x)) [
    | inl h ↦ inl (h, (let e' : some x ≡ some y = rw h at e in cc))
    | inr h ↦ inr (h, rw h at e)
  ]

  pub find-eq-none :
      (p : A → Bool) (x : A) (xs : List A)
      → find p (x ∷ xs) ≡ none
      → (p x ≡ false) × (find p xs ≡ none)
  find-eq-none p x xs e = elim (Bool-cases (p x)) [ inl h ↦ cc | inr h ↦ (h, rw h at e) ]

  pub All-find {κ} :
      (P : A → Type κ) (p : A → Bool) (xs : List A) {y : A} → All P xs → find p xs ≡ some y → P y
  All-find P p [] a e = cc
  All-find P p (x ∷ xs) {y} a e = elim (find-eq-some p x xs e) [
    | inl (hit, same) ↦ subst P same a.0
    | inr (miss, e') ↦ All-find P p xs a.1 e'
  ]

  pub keep-keep : (p q : A → Bool) (xs : List A) → keep p (keep q xs) ≡ keep (λ x. q x && p x) xs
  keep-keep p q [] = refl
  keep-keep p q (x ∷ xs) = ground (arith, keep-keep p q xs)

  pub any-append_left : (p : A → Bool) (xs ys : List A) → any p xs ≡ true → any p (xs ++ ys) ≡ true
  any-append_left p [] ys e = cc
  any-append_left p (x ∷ xs) ys e = elim (Bool-cases (p x)) [
    | inl h ↦ rw h refl
    | inr h ↦ rw h (any-append_left p xs ys (rw h at e))
  ]

  pub any-append_right : (p : A → Bool) (xs ys : List A) → any p ys ≡ true → any p (xs ++ ys) ≡ true
  any-append_right p [] ys e = e
  any-append_right p (x ∷ xs) ys e = elim (Bool-cases (p x)) [
    | inl h ↦ rw h refl
    | inr h ↦ rw h (any-append_right p xs ys e)
  ]

  -- A narrower filter needs no wider one before it.
  pub keep_narrow :
      (p q : A → Bool)
      → ((a : A) → p a ≡ true → q a ≡ true)
      → (xs : List A) → keep p (keep q xs) ≡ keep p xs
  keep_narrow p q narrow [] = refl
  keep_narrow p q narrow (x ∷ xs) = elim (Bool-cases (p x)) [
    | inl e ↦ rw (e, narrow x e) (rw e (ap (◌∷◌ x) (keep_narrow p q narrow xs)))
    | inr e ↦ elim (Bool-cases (q x)) [
      | inl h ↦ rw (e, h) (rw e (keep_narrow p q narrow xs))
      | inr h ↦ rw (e, h) (keep_narrow p q narrow xs)
    ]
  ]

  -- Rows in the order of their ids, where the newest stands first.
  abbrev pub oldest_first : List A → List A
  oldest_first [] = []
  oldest_first (x ∷ xs) = oldest_first xs ++ (x ∷ [])

  keep-append : (p : A → Bool) (xs ys : List A) → keep p (xs ++ ys) ≡ keep p xs ++ keep p ys
  keep-append p [] ys = refl
  keep-append p (x ∷ xs) ys = elim (Bool-cases (p x)) [
    | inl e ↦ rw e (ap (◌∷◌ x) (keep-append p xs ys))
    | inr e ↦ rw e (keep-append p xs ys)
  ]

  append_nil : (xs : List A) → xs ++ [] ≡ xs
  append_nil [] = refl
  append_nil (x ∷ xs) = ap (◌∷◌ x) (append_nil xs)

  pub keep-oldest_first :
      (p : A → Bool) (xs : List A) → keep p (oldest_first xs) ≡ oldest_first (keep p xs)
  keep-oldest_first p [] = refl
  keep-oldest_first p (x ∷ xs) =
      keep-append p (oldest_first xs) (x ∷ []) ∙ (elim (Bool-cases (p x)) [
        | inl e ↦ rw e (ap (λ ys. ys ++ (x ∷ [])) (keep-oldest_first p xs))
        | inr e ↦ rw e (append_nil (keep p (oldest_first xs)) ∙ keep-oldest_first p xs)
      ])

  any-append : (p : A → Bool) (xs ys : List A) → any p (xs ++ ys) ≡ (any p ys || any p xs)
  any-append p [] ys = ground arith
  any-append p (x ∷ xs) ys = ground (arith, any-append p xs ys)

  pub any-oldest_first : (p : A → Bool) (xs : List A) → any p (oldest_first xs) ≡ any p xs
  any-oldest_first p [] = refl
  any-oldest_first p (x ∷ xs) =
      any-append p (oldest_first xs) (x ∷ []) ∙ ground (arith, any-oldest_first p xs)
