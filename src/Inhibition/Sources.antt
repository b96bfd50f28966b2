-- ===== src/Inhibition/Sources.antt =====
-- What suppresses an alert (the conditions in applyInhibition of src/inhibit-engine.ts).
use threadwork.Prelude.{
  ◌≡◌, refl, String, Bool, true, false, not, ◌&&◌, Option, none, some, List, [], ◌∷◌, arith, any,
  Bool-cases, inl, inr, or_else, if◌then◌else◌, eq_iff,
}
use threadwork.Prelude.Store.{lookup}
use threadwork.Inhibition.{
  AlertLabel, InhibitRule, match_labels, labels_equal, shares_labels, same_value, both_equal,
  is_matching_source, is_critical, suppresses,
}

same_of_both : (a s : Option String) → both_equal a s ≡ true → same_value s a ≡ true
same_of_both none s e = cc
same_of_both (some a) none e = cc
same_of_both (some a) (some s) e = ground (arith, e, eq_iff a s, eq_iff s a)

equal_of_shared :
    (alert src : AlertLabel) (labels : List String)
    → shares_labels alert src labels ≡ true
    → labels_equal src alert labels ≡ true
unfolding shares_labels labels_equal
equal_of_shared alert src [] e = refl
equal_of_shared alert src (l ∷ labels) e =
    elim (Bool-cases (both_equal (lookup l alert) (lookup l src))) [
      | inl both ↦
          rw (same_of_both (lookup l alert) (lookup l src) both)
            (equal_of_shared alert src labels (rw both at e))
      | inr apart ↦ let no : false ≡ true = rw apart at e in cc
    ]

-- A source that is no target of the rule itself.
abbrev pub is_source : InhibitRule → AlertLabel → AlertLabel → Bool
is_source rule alert src =
    match_labels src rule.source_match
    && not (match_labels src rule.target_match)
    && shares_labels alert src rule.equal_labels

source_lem :
    (rule : InhibitRule) (alert src : AlertLabel)
    → is_matching_source rule alert src ≡ is_source rule alert src
unfolding is_matching_source
source_lem rule alert src = elim (Bool-cases (shares_labels alert src rule.equal_labels)) [
  | inl e ↦ rw (e, equal_of_shared alert src rule.equal_labels e) (ground arith)
  | inr e ↦ rw e (ground arith)
]

any_cong {ℓ} :
    {A : Type ℓ} (p q : A → Bool) → ((a : A) → p a ≡ q a) → (xs : List A) → any p xs ≡ any q xs
any_cong p q same [] = refl
any_cong p q same (x ∷ xs) = rw (same x, any_cong p q same xs) refl

any_mono {ℓ} :
    {A : Type ℓ} (p q : A → Bool)
    → ((a : A) → q a ≡ true → p a ≡ true)
    → (xs : List A) → any q xs ≡ true
    → any p xs ≡ true
any_mono p q only [] e = cc
any_mono p q only (x ∷ xs) e = elim (Bool-cases (q x)) [
  | inl h ↦ rw (only x h) refl
  | inr h ↦
      let later = any_mono p q only xs (rw h at e) in
      elim (Bool-cases (p x)) [ inl k ↦ rw k refl | inr k ↦ rw k later ]
]

source_matches :
    (rule : InhibitRule) (alert src : AlertLabel)
    → is_source rule alert src ≡ true
    → match_labels src rule.source_match ≡ true
source_matches rule alert src e = ground (arith, e)

tests_lem :
    (some_source is_target has_source resists : Bool)
    → (has_source ≡ true → some_source ≡ true)
    → (if not some_source
        then false
        else if not is_target
        then false
        else if has_source
        then not resists
        else false)
      ≡ (is_target && has_source && not resists)
tests_lem true true true resists h = refl
tests_lem true true false resists h = refl
tests_lem true false has_source resists h = refl
tests_lem false true true resists h = let no : false ≡ true = h refl in cc
tests_lem false true false resists h = refl
tests_lem false false has_source resists h = refl

-- A rule suppresses an alert exactly if the alert is a target of the rule, there is an alert that is a
-- source of the rule and no target of it, with the same value at every label of equal_labels, and the
-- alert is not critical or the rule applies to critical alerts.
pub suppresses_lem :
    (alerts : List AlertLabel) (alert : AlertLabel) (rule : InhibitRule)
    → suppresses alerts alert rule ≡ (
        match_labels alert rule.target_match
        && any (is_source rule alert) alerts
        && not (is_critical alert && not (or_else rule.applies_to_critical false)))
unfolding suppresses
suppresses_lem alerts alert rule =
    let same =
      any_cong (is_matching_source rule alert) (is_source rule alert) (source_lem rule alert)
        alerts in
    rw same (
      tests_lem (any (λ src. match_labels src rule.source_match) alerts)
        (match_labels alert rule.target_match) (any (is_source rule alert) alerts)
        (is_critical alert && not (or_else rule.applies_to_critical false))
        (any_mono (λ src. match_labels src rule.source_match) (is_source rule alert)
          (source_matches rule alert) alerts))
