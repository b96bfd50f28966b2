-- ===== src/Silences/Ends.antt =====
-- The end of a silence (loadSilences and expireSilences of silences/index.ts).
use threadwork.Prelude.{
  any-append_left, any-append_right, ◌==◌, ℕ, ◌≤◌, ◌<◌, ◌≡◌, refl, String, Bool, true, false, some,
  List, [], ◌∷◌, ◌++◌, arith, any, ltb, length, ap, ◌∙◌, str_eq, eq_iff,
}
use threadwork.Silences.{
  Silence, SilencesEngine, RegExp, AlertForSilence, Effect, rejected, audit_expired, audit_silenced,
  ends_before_now, empty_matchers, invalid_dates, ends_before_start, invalid_matcher,
  unknown_matcher_type, invalid_regex, dates_error, validate_silence, stored, load_silences,
  rejections, apply_silences, report,
}

-- A silence that has ended, with nothing else amiss.
abbrev pub HasEnded : ℕ → Silence → Type 0
HasEnded now s =
    (ltb 0 (length s.matchers) ≡ true)
    × ((a : ℕ) × (b : ℕ) × (s.starts_at ≡ some a) × (s.ends_at ≡ some b) × (a ≤ b) × (b < now))

abbrev pub is_alarm : String → Effect → Bool
is_alarm id (rejected other ends_before_now) = str_eq other id
is_alarm id (rejected other empty_matchers) = false
is_alarm id (rejected other invalid_dates) = false
is_alarm id (rejected other ends_before_start) = false
is_alarm id (rejected other invalid_matcher) = false
is_alarm id (rejected other unknown_matcher_type) = false
is_alarm id (rejected other invalid_regex) = false
is_alarm id (audit_expired other) = false
is_alarm id (audit_silenced other alert) = false

rejected_ended :
    (regexp : RegExp) (now : ℕ) (s : Silence)
    → HasEnded now s
    → validate_silence regexp s now ≡ some ends_before_now
unfolding validate_silence dates_error
rejected_ended regexp now s (filled, (a, b, start, end_, ordered, past)) =
    let nonempty : (length s.matchers == 0) ≡ false = ground (arith, filled) in
    rw (nonempty, start, end_)
      (let in_order : ltb b a ≡ false = ground (arith, ordered) in
        let over : ltb b now ≡ true = ground (arith, past) in rw (in_order, over) refl)

alarm_rejections :
    (regexp : RegExp) (now : ℕ) (s : Silence) (front back : List Silence)
    → HasEnded now s
    → any (is_alarm s.id) (rejections regexp now (front ++ (s ∷ back))) ≡ true
unfolding rejections
alarm_rejections regexp now s [] back h =
    rw (rejected_ended regexp now s h)
      (let same : str_eq s.id s.id ≡ true = ground (arith, eq_iff s.id s.id) in rw same refl)
alarm_rejections regexp now s (x ∷ front) back h =
    any-append_right (is_alarm s.id) (report x.id (validate_silence regexp x now)) _
      (alarm_rejections regexp now s front back h)

-- The end of a silence is reported as an error: a tick that finds a silence in the file which has
-- ended, with matchers and with dates in order, raises the meta alert of a rejected silence for it,
-- although nothing is wrong with it.
pub end_alarms :
    (regexp : RegExp) (alerts : List AlertForSilence) (now : ℕ) (e : SilencesEngine) (s : Silence)
    (front back : List Silence)
    → stored e.silences_file ≡ front ++ (s ∷ back)
    → HasEnded now s
    → any (is_alarm s.id) (apply_silences regexp alerts now e).2 ≡ true
unfolding apply_silences load_silences
end_alarms regexp alerts now e s front back at_s h =
    any-append_left (is_alarm s.id) (rejections regexp now (stored e.silences_file)) _ (
      ap (λ l. any (is_alarm s.id) (rejections regexp now l)) at_s
      ∙ alarm_rejections regexp now s front back h)
