-- ===== src/Urgency/Cooldown.antt =====
-- How often a critical alert is sent (routeCritical of urgency-routing/index.ts).
use mathlib.Core.Path.{subst, sym}
use threadwork.Prelude.{
  ℕ, zero, suc, ◌+◌, ◌≤◌, ◌≡◌, refl, String, Bool, true, false, not, Option, none, some, List, [],
  ◌∷◌, leb, if◌then◌else◌, arith, inl, inr, Bool-cases, ap, ◌∙◌,
}
use threadwork.Prelude.Store.{load, lookup, lookup-insert_self}
use threadwork.Urgency.{
  Router, CriticalDedupEntry, check_critical_dedup, record_critical_emit, route_critical,
  next_entry, next_backoff, next_in,
}

-- The entry of a fingerprint.
abbrev pub entry_of : String → Router → Option CriticalDedupEntry
entry_of fp r = lookup fp (load r.dedup_file)

-- The cooldown after the first, second, third, … time that an alert is sent.
abbrev pub rung : ℕ → ℕ
rung zero = 120
rung (suc zero) = 240
rung (suc (suc zero)) = 480
rung (suc (suc (suc k))) = 1800

next_backoff-rung : (k : ℕ) → next_backoff (rung k) ≡ rung (suc k)
unfolding next_backoff next_in
next_backoff-rung zero = refl
next_backoff-rung (suc zero) = refl
next_backoff-rung (suc (suc zero)) = refl
next_backoff-rung (suc (suc (suc k))) = refl

rung-bound : (k : ℕ) → rung k ≤ 1800
rung-bound zero = omega arith
rung-bound (suc zero) = omega arith
rung-bound (suc (suc zero)) = omega arith
rung-bound (suc (suc (suc k))) = omega arith

-- The entry of an alert that was sent k + 1 times, the last time at `last`.
abbrev sent : ℕ → ℕ → CriticalDedupEntry
sent k last = record { last_emit_at = last; cooldown_sec = rung k; emit_count = suc k }

check-fresh :
    (fp : String) (now : ℕ) (r : Router)
    → entry_of fp r ≡ none
    → check_critical_dedup fp now r ≡ false
unfolding check_critical_dedup
check-fresh fp now r e = rw (check_critical_dedup, e) refl

check-sent :
    (fp : String) (now k last : ℕ) (r : Router)
    → entry_of fp r ≡ some (sent k last)
    → check_critical_dedup fp now r ≡ not (leb (last + rung k) now)
unfolding check_critical_dedup
check-sent fp now k last r e = rw (check_critical_dedup, e) refl

entry-record :
    (fp : String) (now : ℕ) (r : Router)
    → entry_of fp (record_critical_emit fp now r)
      ≡ some (next_entry r.initial_cooldown_sec now (entry_of fp r))
unfolding record_critical_emit load
entry-record fp now r = lookup-insert_self fp _ (load r.dedup_file)

entry-first :
    (fp : String) (now : ℕ) (r : Router)
    → r.initial_cooldown_sec ≡ 120
    → entry_of fp r ≡ none
    → entry_of fp (record_critical_emit fp now r) ≡ some (sent 0 now)
entry-first fp now r start e = entry-record fp now r ∙ unfold next_entry in rw (e, start) refl

entry-again :
    (fp : String) (now k last : ℕ) (r : Router)
    → entry_of fp r ≡ some (sent k last)
    → entry_of fp (record_critical_emit fp now r) ≡ some (sent (suc k) now)
entry-again fp now k last r e =
    entry-record fp now r
    ∙ unfold next_entry in
      rw e (
        (ap (λ c. some (record { last_emit_at = now; cooldown_sec = c; emit_count = suc k + 1 }))
            (next_backoff-rung k)
          ∙ ap
              (λ n.
                some (record { last_emit_at = now; cooldown_sec = rung (suc k); emit_count = n }))
              (omega arith)))

-- The times at which an alert is sent, of the times at which it is raised.
unfoldable pub emits : String → Bool → List ℕ → Router → List ℕ
unfolding route_critical
emits fp push_ok [] r = []
emits fp push_ok (now ∷ later) r =
    let (answer, r1) = route_critical fp push_ok now r in
    let rest = emits fp push_ok later r1 in if answer.emit then now ∷ rest else rest

-- Times that keep the distances of the ladder from rung k on.
abbrev pub IsSpaced : ℕ → ℕ → List ℕ → Type 0
IsSpaced k last [] = Unit
IsSpaced k last (x ∷ xs) = ((last + rung k) ≤ x) × IsSpaced (suc k) x xs

emits-sent :
    (fp : String) (push_ok : Bool) (now : ℕ) (later : List ℕ) (r : Router)
    → check_critical_dedup fp now r ≡ false
    → emits fp push_ok (now ∷ later) r
      ≡ now ∷ emits fp push_ok later (record_critical_emit fp now r)
unfolding emits route_critical
emits-sent fp push_ok now later r e = rw e refl

emits-held :
    (fp : String) (push_ok : Bool) (now : ℕ) (later : List ℕ) (r : Router)
    → check_critical_dedup fp now r ≡ true
    → emits fp push_ok (now ∷ later) r ≡ emits fp push_ok later r
unfolding emits route_critical
emits-held fp push_ok now later r e = rw e refl

emits-IsSpaced :
    (fp : String) (push_ok : Bool) (times : List ℕ) (k last : ℕ) (r : Router)
    → entry_of fp r ≡ some (sent k last)
    → IsSpaced k last (emits fp push_ok times r)
unfolding emits
emits-IsSpaced fp push_ok [] k last r e = tt
emits-IsSpaced fp push_ok (now ∷ later) k last r e = elim (Bool-cases (leb (last + rung k) now)) [
  | inl due ↦
      let ready : check_critical_dedup fp now r ≡ false =
        check-sent fp now k last r e ∙ ap not due in
      subst (IsSpaced k last) (sym (emits-sent fp push_ok now later r ready)) (
        ground (arith, due),
        emits-IsSpaced fp push_ok later (suc k) now _ (entry-again fp now k last r e),
      )
  | inr early ↦
      let held : check_critical_dedup fp now r ≡ true =
        check-sent fp now k last r e ∙ ap not early in
      subst (IsSpaced k last) (sym (emits-held fp push_ok now later r held))
        (emits-IsSpaced fp push_ok later k last r e)
]

-- A critical alert that is raised at any times, in any order, is sent the first time, and after that
-- never before its cooldown is over: 120 seconds after the first time that it is sent, 240 after the
-- second, 480 after the third, and 1800 after each later one. The router starts without an entry for
-- the alert, and with the default first cooldown of 120 seconds.
pub emits-IsSpaced-from_fresh :
    (fp : String) (push_ok : Bool) (first : ℕ) (later : List ℕ) (r : Router)
    → r.initial_cooldown_sec ≡ 120
    → entry_of fp r ≡ none
    → (rest : List ℕ) × (emits fp push_ok (first ∷ later) r ≡ first ∷ rest) × IsSpaced 0 first rest
emits-IsSpaced-from_fresh fp push_ok first later r start e =
    let r1 = record_critical_emit fp first r in
    (
      emits fp push_ok later r1,
      emits-sent fp push_ok first later r (check-fresh fp first r e),
      emits-IsSpaced fp push_ok later 0 first r1 (entry-first fp first r start e),
    )
