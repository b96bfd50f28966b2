-- ===== src/Signals/Repeats.antt =====
-- What is not said twice (shouldAlert and reportProgress of db.ts).
use threadwork.Prelude.{
  ℕ, ◌+◌, ◌*◌, ◌/◌, ◌<◌, ◌≡◌, refl, String, Bool, true, false, ◌&&◌, Option, none, some, List, [],
  ◌∷◌, arith, ltb, ◌==◌, str_eq, eq_iff, find, Bool-cases, inl, inr, ap, ◌∙◌, All,
}
use threadwork.Signals.{Signals, AlertState, is_alert_of, is_repeat, upsert_alert, should_alert}

-- The row of the alert says that the payload was sent at the second.
abbrev pub IsSent : ℕ → String → String → ℕ → List AlertState → Type 0
IsSent task_id alert_type hash sec alerts =
    (a : AlertState) × (find (is_alert_of task_id alert_type) alerts ≡ some a)
    × (a.payload_hash ≡ hash)
    × (a.last_alerted_at ≡ sec)

abbrev first_alert : ℕ → ℕ → String → String → AlertState
first_alert now_ms task_id alert_type hash = record {
  task_id = task_id;
  alert_type = alert_type;
  payload_hash = hash;
  last_alerted_at = now_ms / 1000;
  fire_count = 1;
}

abbrev next_alert : ℕ → String → AlertState → AlertState
next_alert now_ms hash a = record a {
  payload_hash = hash;
  last_alerted_at = now_ms / 1000;
  fire_count = a.fire_count + 1;
}

-- After an alert has been sent its row has the payload and the time.
upsert-IsSent :
    (now_ms task_id : ℕ) (alert_type hash : String) (alerts : List AlertState)
    → IsSent task_id alert_type hash
        (now_ms / 1000)
        (upsert_alert now_ms task_id alert_type hash alerts)
unfolding upsert_alert
upsert-IsSent now_ms task_id alert_type hash [] =
    let same : (task_id == task_id) ≡ true = ground arith in
    let same_type : str_eq alert_type alert_type ≡ true =
      ground (arith, eq_iff alert_type alert_type) in
    (first_alert now_ms task_id alert_type hash, rw (same, same_type) refl, refl, refl)
upsert-IsSent now_ms task_id alert_type hash (a ∷ rest) =
    elim (Bool-cases (is_alert_of task_id alert_type a)) [
      | inl here ↦ (next_alert now_ms hash a, rw here (rw here refl), refl, refl)
      | inr other ↦
          let (b, found, of_hash, at_sec) = upsert-IsSent now_ms task_id alert_type hash rest in
          (b, rw other (rw other found), of_hash, at_sec)
    ]

-- The row of the alert has the payload.
abbrev HasPayload : ℕ → String → String → Signals → Type 0
HasPayload task_id alert_type hash s = (sec : ℕ) × IsSent task_id alert_type hash sec s.alerts

repeat-found :
    (now_ms : ℕ) (hash : String) (cooldown_sec : ℕ) (o : Option AlertState)
    → is_repeat now_ms hash cooldown_sec o ≡ true
    → (a : AlertState) × (o ≡ some a) × (a.payload_hash ≡ hash)
repeat-found now_ms hash cooldown_sec none e = cc
repeat-found now_ms hash cooldown_sec (some a) e = elim (Bool-cases (str_eq a.payload_hash hash)) [
  | inl same ↦ (a, refl, ground (arith, eq_iff a.payload_hash hash, same))
  | inr other ↦ let no : false ≡ true = rw other at e in cc
]

sent-HasPayload :
    (now_ms task_id : ℕ) (alert_type hash : String) (cooldown_sec : ℕ) (s : Signals)
    → HasPayload task_id alert_type hash
        (should_alert now_ms task_id alert_type hash cooldown_sec s).1
unfolding should_alert
sent-HasPayload now_ms task_id alert_type hash cooldown_sec s =
    let o = find (is_alert_of task_id alert_type) s.alerts in
    elim (Bool-cases (is_repeat now_ms hash cooldown_sec o)) [
      | inl again ↦
          let (a, found, of_hash) = repeat-found now_ms hash cooldown_sec o again in
          rw again (a.last_alerted_at, (a, found, of_hash, refl))
      | inr fresh ↦ rw fresh (now_ms / 1000, upsert-IsSent now_ms task_id alert_type hash s.alerts)
    ]

-- Another payload is sent at once.
other_payload :
    (now_ms task_id : ℕ) (alert_type hash other : String) (cooldown_sec : ℕ) (s : Signals)
    → str_eq other hash ≡ false
    → HasPayload task_id alert_type other s
    → (should_alert now_ms task_id alert_type hash cooldown_sec s).0 ≡ true
unfolding should_alert
other_payload now_ms task_id alert_type hash other cooldown_sec s apart
      (sec, (a, found, of_other, at_sec)) =
    let fresh : is_repeat now_ms hash cooldown_sec (some a) ≡ false =
      ap (λ h. str_eq h hash && ltb now_ms (a.last_alerted_at * 1000 + cooldown_sec * 1000))
        of_other
      ∙ rw apart refl in
    rw (found, fresh) refl

-- Only the last payload is remembered: of an alert whose payload goes from one to another and back,
-- the third is sent again, although the same payload was sent in the cooldown, whatever the times
-- and the cooldown are.
pub back_and_forth :
    (t1 t2 t3 task_id : ℕ) (alert_type hash other : String) (cooldown_sec : ℕ) (s : Signals)
    → str_eq hash other ≡ false
    → let once = (should_alert t1 task_id alert_type hash cooldown_sec s).1 in
      let twice = should_alert t2 task_id alert_type other cooldown_sec once in
      (twice.0 ≡ true) × ((should_alert t3 task_id alert_type hash cooldown_sec twice.1).0 ≡ true)
back_and_forth t1 t2 t3 task_id alert_type hash other cooldown_sec s apart =
    let once = (should_alert t1 task_id alert_type hash cooldown_sec s).1 in
    let twice = should_alert t2 task_id alert_type other cooldown_sec once in
    let apart_back : str_eq other hash ≡ false =
      ground (arith, eq_iff hash other, eq_iff other hash, apart) in
    (
      other_payload t2 task_id alert_type other hash cooldown_sec once apart
          (sent-HasPayload t1 task_id alert_type hash cooldown_sec s),
      other_payload t3 task_id alert_type hash other cooldown_sec twice.1 apart_back
          (sent-HasPayload t2 task_id alert_type other cooldown_sec once),
    )

-- The answers to an alert with the same payload at several times.
unfoldable pub answers : ℕ → String → String → ℕ → List ℕ → Signals → List Bool
unfolding should_alert
answers task_id alert_type hash cooldown_sec [] s = []
answers task_id alert_type hash cooldown_sec (now_ms ∷ later) s =
    let out = should_alert now_ms task_id alert_type hash cooldown_sec s in
    out.0 ∷ answers task_id alert_type hash cooldown_sec later out.1

held_alert :
    (now_ms task_id : ℕ) (alert_type hash : String) (cooldown_sec sec : ℕ) (s : Signals)
    → IsSent task_id alert_type hash sec s.alerts
    → now_ms < (sec * 1000 + cooldown_sec * 1000)
    → should_alert now_ms task_id alert_type hash cooldown_sec s ≡ (false, s)
unfolding should_alert
held_alert now_ms task_id alert_type hash cooldown_sec sec s (a, found, of_hash, at_sec) early =
    let same : str_eq a.payload_hash hash ≡ true =
      ground (arith, eq_iff a.payload_hash hash, of_hash) in
    let soon : ltb now_ms (a.last_alerted_at * 1000 + cooldown_sec * 1000) ≡ true =
      ground (arith, at_sec, early) in
    let again : is_repeat now_ms hash cooldown_sec (some a) ≡ true = rw (same, soon) refl in
    rw (found, again) refl

-- An alert is not repeated: while its last row has the payload and the cooldown has not passed, counted
-- from the second of the row, every call with that payload is refused, however many there are.
pub alert_held :
    (task_id : ℕ) (alert_type hash : String) (cooldown_sec sec : ℕ) (times : List ℕ) (s : Signals)
    → IsSent task_id alert_type hash sec s.alerts
    → All (λ now_ms. now_ms < (sec * 1000 + cooldown_sec * 1000)) times
    → All (λ sent. sent ≡ false) (answers task_id alert_type hash cooldown_sec times s)
unfolding answers
alert_held task_id alert_type hash cooldown_sec sec [] s of_row early = tt
alert_held task_id alert_type hash cooldown_sec sec (now_ms ∷ later) s of_row (soon, early) =
    let held = held_alert now_ms task_id alert_type hash cooldown_sec sec s of_row soon in
    rw held (refl, alert_held task_id alert_type hash cooldown_sec sec later s of_row early)
