-- ===== src/Silences/Window.antt =====
-- Which silences are in force (validateSilence, check and addSilence of silences/index.ts).
use threadwork.Prelude.{
  ℕ, ◌≡◌, refl, String, Bool, true, false, not, ◌&&◌, Option, none, some, List, [], ◌∷◌, arith, any,
  find, keep, Bool-cases, inl, inr, or_else, is_none, length, if◌then◌else◌, ap, ◌∙◌, ◌==◌,
}
use threadwork.Silences.{
  Silence, RegExp, AlertForSilence, validate_silence, dates_error, first_error, before, or_error,
  is_valid, is_expired, is_in_window, applies, check, id_of, SilenceError, empty_matchers,
}

-- Some silence of the list that is valid now is in its window and matches the alert, which is not
-- resolved.
abbrev pub is_silenced : RegExp → ℕ → List Silence → AlertForSilence → Bool
is_silenced regexp now silences alert =
    not (or_else alert.is_resolved false)
    && any (λ s. is_valid regexp now s && applies regexp now alert s) silences

or_error-none :
    (first later : Option SilenceError)
    → or_error first later ≡ none
    → (first ≡ none) × (later ≡ none)
or_error-none none later e = (refl, e)
or_error-none (some err) later e = cc

none_of : (o : Option SilenceError) → is_none o ≡ true → o ≡ none
none_of none e = refl
none_of (some err) e = cc

dates-steady :
    (starts_at ends_at : Option ℕ) (now : ℕ)
    → dates_error starts_at ends_at now ≡ none
    → before ends_at (some now) ≡ false
unfolding dates_error
dates-steady none none now e = cc
dates-steady none (some b) now e = cc
dates-steady (some a) none now e = cc
dates-steady (some a) (some b) now e = ground (arith, e)

-- A silence that is valid now has not expired.
pub valid_unexpired :
    (regexp : RegExp) (now : ℕ) (s : Silence)
    → is_valid regexp now s ≡ true
    → not (is_expired now s) ≡ true
unfolding validate_silence
valid_unexpired regexp now s e =
    let (filled, rest) = or_error-none _ _ (none_of _ e) in
    let (dates, matchers) = or_error-none _ _ rest in
    ap not (dates-steady s.starts_at s.ends_at now dates)

dates-later :
    (starts_at ends_at : Option ℕ) (then_ now : ℕ)
    → dates_error starts_at ends_at then_ ≡ none
    → before ends_at (some now) ≡ false
    → dates_error starts_at ends_at now ≡ none
unfolding dates_error
dates-later none none then_ now e h = cc
dates-later none (some b) then_ now e h = cc
dates-later (some a) none then_ now e h = cc
dates-later (some a) (some b) then_ now e h = ground (arith, e, h)

-- A silence stays valid up to its end.
pub valid_in_window :
    (regexp : RegExp) (then_ now : ℕ) (s : Silence)
    → validate_silence regexp s then_ ≡ none
    → is_in_window now s ≡ true
    → is_valid regexp now s ≡ true
unfolding validate_silence is_in_window
valid_in_window regexp then_ now s e h =
    let dated = dates_error s.starts_at s.ends_at then_ in
    let matched = first_error regexp s.matchers in
    let (filled, rest) =
      or_error-none (if length s.matchers == 0 then some empty_matchers else none)
        (or_error dated matched) e in
    let (dates, matchers) = or_error-none dated matched rest in
    let open_end : before s.ends_at (some now) ≡ false = ground (arith, h) in
    rw (filled, dates-later s.starts_at s.ends_at then_ now dates open_end, matchers) refl

find-keep {ℓ} :
    {A : Type ℓ} (p q : A → Bool) (xs : List A) → find p (keep q xs) ≡ find (λ x. q x && p x) xs
find-keep p q [] = refl
find-keep p q (x ∷ xs) = elim (Bool-cases (q x)) [
  | inl e ↦ rw e (ap (λ rest. if p x then some x else rest) (find-keep p q xs))
  | inr e ↦ rw e (find-keep p q xs)
]

find_some {ℓ} : {A : Type ℓ} (p : A → Bool) (xs : List A) → is_none (find p xs) ≡ not (any p xs)
find_some p [] = refl
find_some p (x ∷ xs) = elim (Bool-cases (p x)) [ inl e ↦ rw e refl | inr e ↦ rw e (find_some p xs) ]

id-none : (o : Option Silence) → is_none (id_of o) ≡ is_none o
id-none none = refl
id-none (some s) = refl

none_unless :
    (resolved found : Bool) (o : Option String)
    → is_none o ≡ not found
    → not (is_none (if resolved then none else o)) ≡ (not resolved && found)
none_unless true found o e = refl
none_unless false true o e = ap not e
none_unless false false o e = ap not e

-- What the check answers for the silences that have been loaded.
pub check-loaded :
    (regexp : RegExp) (now : ℕ) (all : List Silence) (alert : AlertForSilence)
    → not (is_none (check regexp alert (keep (is_valid regexp now) all) now))
      ≡ is_silenced regexp now all alert
unfolding check
check-loaded regexp now all alert =
    none_unless (or_else alert.is_resolved false)
      (any (λ s. is_valid regexp now s && applies regexp now alert s) all)
      (id_of (find (applies regexp now alert) (keep (is_valid regexp now) all)))
      (id-none (find (applies regexp now alert) (keep (is_valid regexp now) all))
        ∙ ap is_none (find-keep (applies regexp now alert) (is_valid regexp now) all)
        ∙ find_some (λ s. is_valid regexp now s && applies regexp now alert s) all)
