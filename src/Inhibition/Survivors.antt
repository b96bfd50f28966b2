-- ===== src/Inhibition/Survivors.antt =====
-- Who survives a tick of the inhibition (applyInhibition, deduplicate and group of
-- src/inhibit-engine.ts).
use mathlib.Core.List.{append-nil, append_assoc}
use threadwork.Prelude.{
  ℕ, suc, ◌⊎◌, keep_narrow, ◌≡◌, refl, String, Bool, true, false, not, Option, none, some, List, [],
  ◌∷◌, ◌++◌, arith, any, every, find, keep, Bool-cases, inl, inr, or_else, str_eq, if◌then◌else◌,
  eq_iff, ap, ◌∙◌, sym, length,
}
use threadwork.Prelude.Store.{Store, lookup, insert, lookup-insert}
use threadwork.Inhibition.{
  AlertLabel, InhibitRule, InhibitionEngine, suppresses, effective_rules, Pass, suppress, survive,
  judged, reload_rules, pass_over, inhibit, apply_inhibition, is_critical, alert_fingerprint,
  deduplicate, group, group_key, empty_pass,
}
use threadwork.Inhibition.Sources.{suppresses_lem}

-- Some rule suppresses the alert.
abbrev pub is_inhibited : List InhibitRule → List AlertLabel → AlertLabel → Bool
is_inhibited rules alerts alert = any (suppresses alerts alert) rules

search_cases {ℓ} :
    {A : Type ℓ} (p : A → Bool) (xs : List A)
    → ((find p xs ≡ none) × (any p xs ≡ false))
      ⊎ ((a : A) × (find p xs ≡ some a) × (any p xs ≡ true))
search_cases p [] = inl (refl, refl)
search_cases p (x ∷ xs) = elim (Bool-cases (p x)) [
  | inl e ↦ inr (x, rw e refl, rw e refl)
  | inr e ↦ elim (search_cases p xs) [
    | inl (f, a) ↦ inl (rw e f, rw e a)
    | inr (y, f, a) ↦ inr (y, rw e f, rw e a)
  ]
]

-- What the pass adds to the two lists.
abbrev Adds : Pass → Pass → List AlertLabel → List AlertLabel → Type 0
Adds p q survivors suppressed =
    (q.result.survivors ≡ p.result.survivors ++ survivors)
    × (q.result.suppressed ≡ p.result.suppressed ++ suppressed)

pass-Adds :
    (rules : List InhibitRule) (alerts todo : List AlertLabel) (p : Pass)
    → Adds p
        (pass_over rules alerts todo p)
        (keep (λ a. not (is_inhibited rules alerts a)) todo)
        (keep (is_inhibited rules alerts) todo)
unfolding pass_over judged suppress
pass-Adds rules alerts [] p = (sym (append-nil _), sym (append-nil _))
pass-Adds rules alerts (a ∷ later) p = elim (search_cases (suppresses alerts a) rules) [
  | inl (f, out) ↦
      let (kept, dropped) = pass-Adds rules alerts later (survive a p) in
      rw (pass_over, f, out) (kept ∙ append_assoc p.result.survivors (a ∷ []) _, dropped)
  | inr (rule, f, hit) ↦
      let (kept, dropped) = pass-Adds rules alerts later (suppress rule.id a p) in
      rw (pass_over, f, hit) (kept, dropped ∙ append_assoc p.result.suppressed (a ∷ []) _)
]

-- The rules that a call works with: the override or, without one, those of the engine, reloaded.
abbrev pub rules_of : Option (List InhibitRule) → InhibitionEngine → List InhibitRule
rules_of none e = (reload_rules e).0.rules
rules_of (some rules) e = rules

inhibit_lem :
    (rules : List InhibitRule) (alerts : List AlertLabel) (e : InhibitionEngine)
    → ((inhibit rules alerts e).0.survivors ≡ keep (λ a. not (is_inhibited rules alerts a)) alerts)
      × ((inhibit rules alerts e).0.suppressed ≡ keep (is_inhibited rules alerts) alerts)
unfolding inhibit
inhibit_lem rules alerts e = pass-Adds rules alerts alerts (empty_pass e.rule_suppressed_counts)

-- The survivors of a tick are the alerts that no unexpired rule suppresses, and the suppressed are the
-- others, both in the order of the input. A rule is judged on the alerts of the tick, the
-- suppressed among them, whatever the order.
pub apply_inhibition_lem :
    (alerts : List AlertLabel) (override : Option (List InhibitRule)) (now : ℕ)
    (e : InhibitionEngine)
    → let rules = effective_rules now (rules_of override e) in
      let result = (apply_inhibition alerts override now e).0 in
      (result.survivors ≡ keep (λ a. not (is_inhibited rules alerts a)) alerts)
      × (result.suppressed ≡ keep (is_inhibited rules alerts) alerts)
unfolding apply_inhibition
apply_inhibition_lem alerts none now e =
    inhibit_lem (effective_rules now (rules_of none e)) alerts (reload_rules e).0
apply_inhibition_lem alerts (some rules) now e = inhibit_lem (effective_rules now rules) alerts e

spares_critical :
    (rules : List InhibitRule) (alerts : List AlertLabel) (a : AlertLabel)
    → every (λ r. not (or_else r.applies_to_critical false)) rules ≡ true
    → is_critical a ≡ true
    → is_inhibited rules alerts a ≡ false
spares_critical [] alerts a mild critical = refl
spares_critical (r ∷ rules) alerts a mild critical =
    elim (Bool-cases (or_else r.applies_to_critical false)) [
      | inl bad ↦ let no : false ≡ true = rw bad at mild in cc
      | inr good ↦
          let later = spares_critical rules alerts a (rw good at mild) critical in
          let spared : suppresses alerts a r ≡ false =
            suppresses_lem alerts a r ∙ rw (critical, good) (ground arith) in
          rw spared later
    ]

every-keep {ℓ} :
    {A : Type ℓ} (p q : A → Bool) (xs : List A) → every p xs ≡ true → every p (keep q xs) ≡ true
every-keep p q [] e = refl
every-keep p q (x ∷ xs) e = elim (Bool-cases (p x)) [
  | inr bad ↦ let no : false ≡ true = rw bad at e in cc
  | inl good ↦
      let later = every-keep p q xs (rw good at e) in
      elim (Bool-cases (q x)) [ inl h ↦ rw h (rw good later) | inr h ↦ rw h later ]
]

-- Critical alerts resist: where no rule has applies_to_critical, all critical alerts of the tick
-- survive, in their order.
pub critical_resist :
    (alerts : List AlertLabel) (override : Option (List InhibitRule)) (now : ℕ)
    (e : InhibitionEngine)
    → every (λ r. not (or_else r.applies_to_critical false)) (rules_of override e) ≡ true
    → keep is_critical (apply_inhibition alerts override now e).0.survivors
      ≡ keep is_critical alerts
unfolding effective_rules
critical_resist alerts override now e mild =
    let rules = effective_rules now (rules_of override e) in
    let mild_rules : every (λ r. not (or_else r.applies_to_critical false)) rules ≡ true =
      every-keep _ _ (rules_of override e) mild in
    ap (keep is_critical) (apply_inhibition_lem alerts override now e).0
    ∙ keep_narrow is_critical (λ a. not (is_inhibited rules alerts a))
        (λ a critical. ap not (spares_critical rules alerts a mild_rules critical)) alerts

abbrev has_fingerprint : String → AlertLabel → Bool
has_fingerprint fp alert = str_eq (alert_fingerprint alert) fp

any_same :
    (s t : String) (seen : List String)
    → str_eq s t ≡ true
    → any (λ x. str_eq x s) seen ≡ any (λ x. str_eq x t) seen
any_same s t seen e =
    let same : s ≡ t = ground (arith, eq_iff s t, e) in ap (λ u. any (λ x. str_eq x u) seen) same

deduplicate-seen :
    (fp : String) (seen : List String) (alerts : List AlertLabel)
    → length (keep (has_fingerprint fp) (deduplicate seen alerts)) ≡ (
        if any (λ s. str_eq s fp) seen then 0 else if any (has_fingerprint fp) alerts then 1 else 0)
unfolding deduplicate
deduplicate-seen fp seen [] = ground arith
deduplicate-seen fp seen (a ∷ later) =
    elim (Bool-cases (any (λ s. str_eq s (alert_fingerprint a)) seen)) [
      | inl old ↦ elim (Bool-cases (has_fingerprint fp a)) [
        | inl h ↦
            let known = any_same (alert_fingerprint a) fp seen h in
            rw old (deduplicate-seen fp seen later ∙ rw (sym known ∙ old) refl)
        | inr h ↦ rw (old, h) (deduplicate-seen fp seen later)
      ]
      | inr new ↦ elim (Bool-cases (has_fingerprint fp a)) [
        | inl h ↦
            let known = any_same (alert_fingerprint a) fp seen h in
            rw (new, h)
              (rw (sym known ∙ new)
                (ap suc (deduplicate-seen fp (alert_fingerprint a ∷ seen) later ∙ rw h refl)))
        | inr h ↦ rw (new, h) (deduplicate-seen fp (alert_fingerprint a ∷ seen) later ∙ rw h refl)
      ]
    ]

-- Deduplication leaves exactly one alert for each fingerprint that there is.
pub deduplicate_lem :
    (fp : String) (alerts : List AlertLabel)
    → length (keep (λ a. str_eq (alert_fingerprint a) fp) (deduplicate [] alerts))
      ≡ (if any (λ a. str_eq (alert_fingerprint a) fp) alerts then 1 else 0)
deduplicate_lem fp alerts = deduplicate-seen fp [] alerts

group_onto :
    (k : String) (groups : Store (List AlertLabel)) (alerts : List AlertLabel)
    → or_else (lookup k (group groups alerts)) []
      ≡ or_else (lookup k groups) [] ++ keep (λ a. str_eq (group_key a) k) alerts
unfolding group
group_onto k groups [] = sym (append-nil _)
group_onto k groups (a ∷ later) =
    let mine = or_else (lookup (group_key a) groups) [] ++ (a ∷ []) in
    let later_lem = group_onto k (insert (group_key a) mine groups) later in
    later_lem
    ∙ rw (lookup-insert (group_key a) k mine groups) (elim (Bool-cases (str_eq (group_key a) k)) [
      | inl h ↦
          let same : group_key a ≡ k = ground (arith, eq_iff (group_key a) k, h) in
          rw h (append_assoc _ (a ∷ []) _ ∙ rw same refl)
      | inr h ↦ rw h refl
    ])

-- Each group holds exactly the alerts with its agent and host, in their order.
pub group_lem :
    (k : String) (alerts : List AlertLabel)
    → or_else (lookup k (group [] alerts)) [] ≡ keep (λ a. str_eq (group_key a) k) alerts
unfolding lookup
group_lem k alerts = group_onto k [] alerts
