-- ===== src/Dedup/Windows.antt =====
-- Deduplication within one process (evaluate of dedup/fingerprint.ts).
use mathlib.Core.Path.{subst}
use threadwork.Prelude.{
  ◌+◌, ◌≡◌, refl, String, Bool, true, false, not, ◌&&◌, some, List, [], ◌∷◌, All, if◌then◌else◌, ap,
  ◌∙◌, str_eq, Bool-cases, inl, inr,
}
use threadwork.Prelude.Store.{Store, load, saved, lookup, insert, lookup-insert_self}
use threadwork.Dedup.{
  AlertInput, DedupEntry, DedupEngine, fingerprint_of, get_cooldown_sec, is_skewed, is_recent,
  is_later_in_process, check_entry, check, record_emission, record_suppression, stale_entries,
  evaluate, evaluate_after,
}
use threadwork.Dedup.Uptime.{Raise, sent_of, no_transition}

abbrev is_stale : AlertInput → DedupEntry → Bool
is_stale a e = str_eq e.agent_name a.agent_name && not (str_eq e.state a.state)

stale-cons :
    (a : AlertInput) (k : String) (x : DedupEntry) (rest : Store DedupEntry)
    → stale_entries a ((k, x) ∷ rest) ≡ []
    → (is_stale a x ≡ false) × (stale_entries a rest ≡ [])
unfolding stale_entries
stale-cons a k x rest none_left = elim (Bool-cases (is_stale a x)) [
  | inl old ↦ let bad : x ∷ stale_entries a rest ≡ [] = rw old at none_left in cc
  | inr fresh ↦ (fresh, rw fresh at none_left)
]

cons-stale :
    (a : AlertInput) (k : String) (x : DedupEntry) (rest : Store DedupEntry)
    → is_stale a x ≡ false
    → stale_entries a rest ≡ []
    → stale_entries a ((k, x) ∷ rest) ≡ []
unfolding stale_entries
cons-stale a k x rest fresh none_left = rw fresh none_left

stale-insert :
    (a : AlertInput) (fp : String) (e : DedupEntry) (state : Store DedupEntry)
    → is_stale a e ≡ false
    → stale_entries a state ≡ []
    → stale_entries a (insert fp e state) ≡ []
unfolding insert
stale-insert a fp e [] fresh none_left = cons-stale a fp e [] fresh none_left
stale-insert a fp e ((k, x) ∷ rest) fresh none_left =
    let (x_fresh, rest_fresh) = stale-cons a k x rest none_left in
    elim (Bool-cases (str_eq k fp)) [
      | inl hit ↦ rw hit (cons-stale a fp e rest fresh rest_fresh)
      | inr miss ↦
          rw miss (
            cons-stale a k x (insert fp e rest) x_fresh (stale-insert a fp e rest fresh rest_fresh))
    ]

stale-lookup :
    (a : AlertInput) (fp : String) (e : DedupEntry) (state : Store DedupEntry)
    → stale_entries a state ≡ []
    → lookup fp state ≡ some e
    → is_stale a e ≡ false
unfolding lookup
stale-lookup a fp e [] none_left found = cc
stale-lookup a fp e ((k, x) ∷ rest) none_left found =
    let (x_fresh, rest_fresh) = stale-cons a k x rest none_left in
    elim (Bool-cases (str_eq k fp)) [
      | inl hit ↦
          let same : some x ≡ some e = rw hit at found in
          let same_entry : x ≡ e = cc in subst (λ o. is_stale a o ≡ false) same_entry x_fresh
      | inr miss ↦ stale-lookup a fp e rest rest_fresh (rw miss at found)
    ]

-- In the cooldown of an entry by both clocks, and neither before its emission nor more than a day after.
abbrev pub IsRepeat : DedupEngine → DedupEntry → Raise → Type 0
IsRepeat d e r =
    (is_skewed r.at e ≡ false)
    × (is_recent (get_cooldown_sec d) r.at e ≡ true)
    × (is_later_in_process r.at_ms d e ≡ true)

abbrev counted : DedupEntry → DedupEntry
counted e = record e { suppress_count = e.suppress_count + 1 }

check-repeat :
    (fp : String) (r : Raise) (d : DedupEngine) (e : DedupEntry)
    → lookup fp (load d.dedup_file) ≡ some e
    → IsRepeat d e r
    → (check fp r.at r.at_ms d).suppressed ≡ true
unfolding check check_entry
check-repeat fp r d e found (steady, recent, after) =
    rw (check, found) (unfold check_entry in rw (steady, recent, after) refl)

suppression-found :
    (fp : String) (d : DedupEngine) (e : DedupEntry)
    → lookup fp (load d.dedup_file) ≡ some e
    → record_suppression fp d
      ≡ record d { dedup_file = saved (insert fp (counted e) (load d.dedup_file)) }
unfolding record_suppression
suppression-found fp d e found = rw (record_suppression, found) refl

evaluate-repeat :
    (sha1 : String → String) (a : AlertInput) (r : Raise) (d : DedupEngine) (e : DedupEntry)
    → stale_entries a (load d.dedup_file) ≡ []
    → lookup (fingerprint_of sha1 a) (load d.dedup_file) ≡ some e
    → IsRepeat d e r
    → let fp = fingerprint_of sha1 a in
      evaluate sha1 a r.at r.at_ms d ≡ (
        check fp r.at r.at_ms d,
        record d { dedup_file = saved (insert fp (counted e) (load d.dedup_file)) },
      )
unfolding evaluate evaluate_after
evaluate-repeat sha1 a r d e fresh found again =
    let fp = fingerprint_of sha1 a in
    let held = check-repeat fp r d e found again in
    ap (evaluate_after fp a r.at r.at_ms) (no_transition a d fresh)
    ∙ ap
        (λ c. (
          check fp r.at r.at_ms d,
          if not c then record_emission fp a r.at r.at_ms d else record_suppression fp d,
        ))
        held
    ∙ ap (λ x. (check fp r.at r.at_ms d, x)) (suppression-found fp d e found)

-- Within one process the cooldown holds for a day. For an alert whose agent has no entry of another
-- state: every raise of it in the cooldown of its entry, by the wall clock and by the uptime, that by
-- the wall clock is not before the last emission and not more than 86400 seconds after it, is
-- suppressed, however many there are and in whatever order.
pub repeats_suppressed :
    (sha1 : String → String) (a : AlertInput) (raises : List Raise) (d : DedupEngine)
    (e : DedupEntry)
    → stale_entries a (load d.dedup_file) ≡ []
    → lookup (fingerprint_of sha1 a) (load d.dedup_file) ≡ some e
    → All (IsRepeat d e) raises
    → All (λ was_sent. was_sent ≡ false) (sent_of sha1 a raises d)
unfolding sent_of load
repeats_suppressed sha1 a [] d e fresh found again = tt
repeats_suppressed sha1 a (r ∷ later) d e fresh found (now_again, later_again) =
    let fp = fingerprint_of sha1 a in
    let state = load d.dedup_file in
    let out = evaluate-repeat sha1 a r d e fresh found now_again in
    let unstale : is_stale a (counted e) ≡ false = stale-lookup a fp e state fresh found in
    rw out (
      ap not (check-repeat fp r d e found now_again),
      repeats_suppressed sha1 a later
          (record d { dedup_file = saved (insert fp (counted e) state) }) (counted e)
          (stale-insert a fp (counted e) state unstale fresh)
          (lookup-insert_self fp (counted e) state) later_again,
    )
