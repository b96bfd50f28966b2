-- ===== src/Silences/Tick.antt =====
-- A tick of the silences engine (apply, expireSilences and addSilence of silences/index.ts).
use threadwork.Prelude.{
  any-append_right, keep_narrow, ℕ, ◌+◌, ◌≡◌, refl, String, Bool, true, false, not, ◌&&◌, Option,
  none, some, List, [], ◌∷◌, ◌++◌, arith, every, keep, Bool-cases, inl, inr, or_else, is_none, ltb,
  length, if◌then◌else◌, ap, ◌∙◌, Option-cases, sym,
}
use threadwork.Prelude.Store.{missing, corrupt, saved}
use threadwork.Silences.{
  Silence, SilencesFile, SilencesEngine, RegExp, AlertForSilence, validate_silence, is_valid,
  is_expired, is_in_window, applies, check, matches, stored, load_silences, expire_silences,
  expire_from, expire_loaded, sift, sifted, apply_silences, add_silence, add_valid, Sifted,
}
use threadwork.Silences.Window.{is_silenced, valid_unexpired, valid_in_window, check-loaded}

keep_all {ℓ} :
    {A : Type ℓ} (p : A → Bool) (xs : List A)
    → length (keep (λ x. not (p x)) xs) + length (keep p xs) ≡ length xs
keep_all p [] = omega arith
keep_all p (x ∷ xs) = ground (arith, keep_all p xs)

keep_none {ℓ} :
    {A : Type ℓ} (p : A → Bool) (xs : List A)
    → length (keep p xs) ≡ 0
    → keep (λ x. not (p x)) xs ≡ xs
keep_none p [] e = refl
keep_none p (x ∷ xs) e = elim (Bool-cases (p x)) [
  | inl h ↦ absurd (let full : length (x ∷ keep p xs) ≡ 0 = rw h at e in omega (arith, full))
  | inr h ↦ rw h (ap (◌∷◌ x) (keep_none p xs (rw h at e)))
]

stored-expire_loaded :
    (now : ℕ) (all : List Silence) (e : SilencesEngine)
    → stored e.silences_file ≡ all
    → stored (expire_loaded now all e).0.silences_file ≡ keep (λ s. not (is_expired now s)) all
unfolding expire_loaded
stored-expire_loaded now all e same =
    elim (Bool-cases (ltb 0 (length (keep (is_expired now) all)))) [
      | inl h ↦ rw h refl
      | inr h ↦ rw h (same ∙ sym (keep_none (is_expired now) all (ground (arith, h))))
    ]

stored-expire_from :
    (now : ℕ) (f : SilencesFile) (e : SilencesEngine)
    → e.silences_file ≡ f
    → stored (expire_from now f e).0.silences_file ≡ keep (λ s. not (is_expired now s)) (stored f)
unfolding expire_from
stored-expire_from now missing e same = ap stored same
stored-expire_from now corrupt e same = ap stored same
stored-expire_from now (saved none) e same = ap stored same
stored-expire_from now (saved (some all)) e same = stored-expire_loaded now all e (ap stored same)

-- After an expiry the file holds the silences that have not ended.
pub stored-expire_silences :
    (now : ℕ) (e : SilencesEngine)
    → stored (expire_silences now e).0.silences_file
      ≡ keep (λ s. not (is_expired now s)) (stored e.silences_file)
unfolding expire_silences
stored-expire_silences now e = stored-expire_from now e.silences_file e refl

sift-cons :
    (silenced : Bool) (o : Option String) (a : AlertForSilence) (out : Sifted)
    (kept dropped : List AlertForSilence)
    → not (is_none o) ≡ silenced
    → out.0 ≡ kept
    → out.1 ≡ dropped
    → ((sifted a o out).0 ≡ (if not silenced then a ∷ kept else kept))
      × ((sifted a o out).1 ≡ (if silenced then a ∷ dropped else dropped))
sift-cons true none a out kept dropped e k d = cc
sift-cons false none a out kept dropped e k d = (ap (◌∷◌ a) k, d)
sift-cons true (some id) a out kept dropped e k d = (k, ap (◌∷◌ a) d)
sift-cons false (some id) a out kept dropped e k d = cc

sift_lem :
    (regexp : RegExp) (now : ℕ) (all : List Silence) (alerts : List AlertForSilence)
    → let out = sift regexp (keep (is_valid regexp now) all) now alerts in
      (out.0 ≡ keep (λ a. not (is_silenced regexp now all a)) alerts)
      × (out.1 ≡ keep (is_silenced regexp now all) alerts)
unfolding sift
sift_lem regexp now all [] = (refl, refl)
sift_lem regexp now all (a ∷ later) =
    let (kept, dropped) = sift_lem regexp now all later in
    sift-cons (is_silenced regexp now all a) (check regexp a (keep (is_valid regexp now) all) now) a
      (sift regexp (keep (is_valid regexp now) all) now later)
      (keep (λ a. not (is_silenced regexp now all a)) later)
      (keep (is_silenced regexp now all) later) (check-loaded regexp now all a) kept dropped

-- A tick silences exactly the alerts that are not resolved and that a silence of the file matches
-- which is valid and in its window: the others survive, in their order. Afterwards the file holds
-- the silences that have not ended.
pub apply_silences_lem :
    (regexp : RegExp) (alerts : List AlertForSilence) (now : ℕ) (e : SilencesEngine)
    → let all = stored e.silences_file in
      let out = apply_silences regexp alerts now e in
      (out.0.0 ≡ keep (λ a. not (is_silenced regexp now all a)) alerts)
      × (out.0.1 ≡ keep (is_silenced regexp now all) alerts)
      × (stored out.1.silences_file ≡ keep (λ s. not (is_expired now s)) all)
unfolding apply_silences load_silences
apply_silences_lem regexp alerts now e =
    let all = stored e.silences_file in
    let loaded = (load_silences regexp now e).0 in
    let left = stored-expire_silences now loaded in
    let valid : keep (is_valid regexp now) (stored (expire_silences now loaded).0.silences_file)
        ≡ keep (is_valid regexp now) all =
      ap (keep (is_valid regexp now)) left
      ∙ keep_narrow (is_valid regexp now) (λ s. not (is_expired now s)) (valid_unexpired regexp now)
          all in
    let (kept, dropped) = sift_lem regexp now all alerts in
    (
      ap (λ l. (sift regexp l now alerts).0) valid ∙ kept,
      ap (λ l. (sift regexp l now alerts).1) valid ∙ dropped,
      left,
    )

added_file :
    (regexp : RegExp) (s : Silence) (then_ : ℕ) (e : SilencesEngine)
    → validate_silence regexp s then_ ≡ none
    → stored (add_silence regexp s then_ e).1.silences_file ≡ stored e.silences_file ++ (s ∷ [])
unfolding add_silence add_valid
added_file regexp s then_ e ok = rw (add_silence, ok) refl

added_holds :
    (regexp : RegExp) (s : Silence) (then_ now : ℕ) (alert : AlertForSilence) (all : List Silence)
    → validate_silence regexp s then_ ≡ none
    → is_in_window now s ≡ true
    → every (matches regexp alert) s.matchers ≡ true
    → or_else alert.is_resolved false ≡ false
    → is_silenced regexp now (all ++ (s ∷ [])) alert ≡ true
unfolding applies
added_holds regexp s then_ now alert all ok inside hit unresolved =
    let valid = valid_in_window regexp then_ now s ok inside in
    rw unresolved (
      any-append_right (λ x. is_valid regexp now x && applies regexp now alert x) all (s ∷ [])
        (rw (valid, inside, hit) refl))

-- A silence that has been added holds: whatever else the file has, an alert that is not resolved and
-- that all its matchers match is silenced by a tick at any time in its window.
pub added_silence_holds :
    (regexp : RegExp) (s : Silence) (then_ now : ℕ) (alert : AlertForSilence) (e : SilencesEngine)
    → (add_silence regexp s then_ e).0 ≡ none
    → is_in_window now s ≡ true
    → every (matches regexp alert) s.matchers ≡ true
    → or_else alert.is_resolved false ≡ false
    → (apply_silences regexp (alert ∷ []) now (add_silence regexp s then_ e).1).0.1 ≡ alert ∷ []
unfolding add_silence add_valid
added_silence_holds regexp s then_ now alert e ok inside hit unresolved =
    elim (Option-cases (validate_silence regexp s then_)) [
      | inr (err, bad) ↦ let no : some err ≡ none = rw bad at ok in cc
      | inl good ↦
          let e' = (add_silence regexp s then_ e).1 in
          let holds =
            added_holds regexp s then_ now alert (stored e.silences_file) good inside hit
              unresolved in
          let same = added_file regexp s then_ e good in
          (apply_silences_lem regexp (alert ∷ []) now e').1
          ∙ ap (λ l. keep (is_silenced regexp now l) (alert ∷ [])) same
          ∙ ap (λ b. if b then alert ∷ [] else []) holds
    ]
