-- ===== src/Urgency/Severities.antt =====
-- The severity of an alert (assignSeverity and DEFAULT_SEVERITY_MAP of urgency-routing/index.ts).
use mathlib.Core.Path.{subst, sym}
use threadwork.Prelude.{
  ◌≡◌, refl, String, true, false, some, List, [], ◌∷◌, ◌++◌, All, if◌then◌else◌, arith, str_eq,
  eq_iff,
}
use threadwork.Urgency.{
  Severity, critical, warning, info, SeverityRule, SeverityMap, Alert, label, all_match,
  first_match, assign_severity, default_severity_map,
}

first_match-later :
    (a : Alert) (before : List SeverityRule) (rule : SeverityRule) (after : List SeverityRule)
    → All (λ r. all_match a r.match_labels ≡ false) before
    → all_match a rule.match_labels ≡ true
    → first_match a (before ++ (rule ∷ after)) ≡ some rule.severity
unfolding first_match
first_match-later a [] rule after misses hit = rw hit refl
first_match-later a (r ∷ before) rule after (miss, misses) hit =
    rw miss (first_match-later a before rule after misses hit)

-- The first rule that matches decides, whatever rules follow it and whatever the default is.
pub first_match_wins :
    (a : Alert) (before : List SeverityRule) (rule : SeverityRule) (after : List SeverityRule)
    (m : SeverityMap)
    → m.mappings ≡ before ++ (rule ∷ after)
    → All (λ r. all_match a r.match_labels ≡ false) before
    → all_match a rule.match_labels ≡ true
    → assign_severity a m ≡ rule.severity
unfolding assign_severity
first_match_wins a before rule after m e misses hit =
    rw (e, first_match-later a before rule after misses hit) refl

-- What the default map means: a dead watchdog and a restart loop of a stuck agent are critical, a
-- parked agent is for information unless it is stale, and everything else is a warning.
abbrev pub expected_severity : Alert → Severity
expected_severity a =
    if str_eq (label a "state") "WATCHDOG_DEAD"
    then critical
    else if str_eq (label a "state") "STUCK"
    then (if str_eq (label a "reason_class") "RESTART_LOOP" then critical else warning)
    else if str_eq (label a "state") "PARKED_PICKER"
    then info
    else warning

stale_only : (s : String) → str_eq s "PARKED_PICKER_STALE" ≡ true → str_eq s "PARKED_PICKER" ≡ false
stale_only s e =
    subst (λ x. str_eq x "PARKED_PICKER" ≡ false) (sym ((eq_iff s "PARKED_PICKER_STALE").0 e)) refl

-- The default map gives every alert the severity that is meant: no rule is shadowed by one before it.
pub default_map_lem : (a : Alert) → assign_severity a default_severity_map ≡ expected_severity a
unfolding assign_severity first_match all_match
default_map_lem a = ground (arith, stale_only (label a "state"))
