-- ===== src/Witnesses/Pipeline.antt =====
-- The engines of the alert pipeline on small inputs.
use threadwork.Prelude.{
  zero, suc, ◌≡◌, refl, String, true, false, not, ◌&&◌, none, some, List, [], ◌∷◌, arith, any, keep,
  or_else,
}
use threadwork.Prelude.Store.{saved}
use threadwork.Inhibition.{AlertLabel, InhibitRule, InhibitionEngine}
use threadwork.Inhibition as I
use threadwork.Inhibition.Sources.{is_source, suppresses_lem}
use threadwork.Inhibition.Survivors.{is_inhibited, rules_of, apply_inhibition_lem}
use threadwork.Silences.{
  SilenceMatcher, Silence, SilencesEngine, RegExp, AlertForSilence, LogFiles, eq, stored,
  apply_silences, add_silence, is_expired, maybe_rotate_audit_log,
}
use threadwork.Silences as S
use threadwork.Silences.Window.{is_silenced}
use threadwork.Silences.Tick.{apply_silences_lem, added_silence_holds}
use threadwork.Silences.Ends.{is_alarm, end_alarms}

abbrev label_of : String → String → String → AlertLabel
label_of agent state severity =
    ("agent", agent)
    ∷ ("session", agent)
    ∷ ("state", state)
    ∷ ("reason_class", "none")
    ∷ ("host", "mini")
    ∷ ("severity", severity)
    ∷ []

abbrev dead_host : InhibitRule
dead_host = record {
  id = "dead-host";
  source_match = ("state", "WATCHDOG_DEAD") ∷ [];
  target_match = ("state", "STUCK") ∷ [];
  equal_labels = "host" ∷ [];
  expires_at = some 5000;
  applies_to_critical = none;
}

abbrev tick_alerts : List AlertLabel
tick_alerts =
    label_of "watchdog" "WATCHDOG_DEAD" "WARNING"
    ∷ label_of "bob" "STUCK" "WARNING"
    ∷ label_of "eve" "STUCK" "CRITICAL"
    ∷ []

abbrev inhibition : InhibitionEngine
inhibition = record {
  rules = dead_host ∷ [];
  rules_path = none;
  rules_mtime = 0;
  stale_tick_threshold = 12;
  rule_active_ticks = [];
  rule_suppressed_counts = [];
}

bob_suppressed :
    (I.apply_inhibition tick_alerts none 1000 inhibition).0.suppressed
    ≡ label_of "bob" "STUCK" "WARNING" ∷ []
unfolding I.apply_inhibition
bob_suppressed = refl

suppresses_lem_example : I.suppresses tick_alerts (label_of "bob" "STUCK" "WARNING") dead_host ≡ (
    I.match_labels (label_of "bob" "STUCK" "WARNING") dead_host.target_match
    && any (is_source dead_host (label_of "bob" "STUCK" "WARNING")) tick_alerts
    && not (
        I.is_critical (label_of "bob" "STUCK" "WARNING")
        && not (or_else dead_host.applies_to_critical false)))
suppresses_lem_example = suppresses_lem tick_alerts (label_of "bob" "STUCK" "WARNING") dead_host

apply_inhibition_lem_example :
    let rules = I.effective_rules 1000 (rules_of none inhibition) in
    let result = (I.apply_inhibition tick_alerts none 1000 inhibition).0 in
    (result.survivors ≡ keep (λ a. not (is_inhibited rules tick_alerts a)) tick_alerts)
    × (result.suppressed ≡ keep (is_inhibited rules tick_alerts) tick_alerts)
apply_inhibition_lem_example = apply_inhibition_lem tick_alerts none 1000 inhibition

-- No pattern is a regular expression.
abbrev no_regexp : RegExp
no_regexp pattern = none

abbrev bob_silence : Silence
bob_silence = record {
  id = "s1";
  matchers = record { label = "agent"; matcher_type = eq; value = some "bob" } ∷ [];
  starts_at = some 1000;
  ends_at = some 2000;
}

abbrev bob_alert : AlertForSilence
bob_alert = record { labels = ("agent", "bob") ∷ ("state", "STUCK") ∷ []; is_resolved = none }

abbrev silences_with : List Silence → SilencesEngine
silences_with all = record { silences_file = saved (some all); silences = [] }

apply_silences_lem_example :
    let e = silences_with (bob_silence ∷ []) in
    let all = stored e.silences_file in
    let out = apply_silences no_regexp (bob_alert ∷ []) 1500 e in
    (out.0.0 ≡ keep (λ a. not (is_silenced no_regexp 1500 all a)) (bob_alert ∷ []))
    × (out.0.1 ≡ keep (is_silenced no_regexp 1500 all) (bob_alert ∷ []))
    × (stored out.1.silences_file ≡ keep (λ s. not (is_expired 1500 s)) all)
apply_silences_lem_example =
    apply_silences_lem no_regexp (bob_alert ∷ []) 1500 (silences_with (bob_silence ∷ []))

added_silence_holds_example :
    (apply_silences no_regexp
      (bob_alert ∷ [])
      1500
      (add_silence no_regexp bob_silence 900 (silences_with [])).1).0.1
    ≡ bob_alert ∷ []
unfolding add_silence S.is_in_window S.matches
added_silence_holds_example =
    added_silence_holds no_regexp bob_silence 900 1500 bob_alert (silences_with []) refl refl refl
      refl

end_alarms_example :
    any (is_alarm "s1") (apply_silences no_regexp [] 2500 (silences_with (bob_silence ∷ []))).2
    ≡ true
end_alarms_example =
    end_alarms no_regexp [] 2500 (silences_with (bob_silence ∷ [])) bob_silence [] [] refl
      (refl, (1000, 2000, refl, refl, omega arith, omega arith))

abbrev two_logs : LogFiles
two_logs zero = some "current"
two_logs (suc zero) = some "older"
two_logs (suc (suc n)) = none
