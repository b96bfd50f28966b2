-- ===== src/Dedup/Uptime.antt =====
-- Deduplication across a restart of the process (evaluate of dedup/fingerprint.ts).
use threadwork.Prelude.{
  ℕ, ◌≡◌, refl, String, Bool, true, false, not, ◌||◌, some, List, [], ◌∷◌, All, if◌then◌else◌, ap,
  ◌∙◌,
}
use threadwork.Prelude.Store.{Store, load, saved, lookup}
use threadwork.Dedup.{
  AlertInput, DedupEntry, DedupEngine, fingerprint_of, get_cooldown_sec, is_skewed, is_recent,
  is_later_in_process, check_entry, check, recorded, record_emission, record_suppression,
  stale_entries, transition_of, check_state_transition, evaluate, evaluate_after, passed,
}

-- An alert at a wall-clock time and at a time of the process.
pub record Raise : Type 0 where
  pub at : ℕ
  pub at_ms : ℕ

-- Whether each alert is sent, of an alert that is raised again and again.
unfoldable pub sent_of : (String → String) → AlertInput → List Raise → DedupEngine → List Bool
unfolding evaluate
sent_of sha1 a [] d = []
sent_of sha1 a (r ∷ later) d =
    let (answer, d') = evaluate sha1 a r.at r.at_ms d in
    not answer.suppressed ∷ sent_of sha1 a later d'

-- In the cooldown of an entry by the wall clock, but before it by the uptime of the process.
abbrev pub IsBeforeUptime : DedupEngine → DedupEntry → Raise → Type 0
IsBeforeUptime d e r =
    (is_skewed r.at e ≡ false)
    × (is_recent (get_cooldown_sec d) r.at e ≡ true)
    × (is_later_in_process r.at_ms d e ≡ false)

pub no_transition :
    (a : AlertInput) (d : DedupEngine)
    → stale_entries a (load d.dedup_file) ≡ []
    → check_state_transition a d ≡ (record { bypass = false; flush_summaries = [] }, d)
unfolding check_state_transition transition_of
no_transition a d fresh = ap (λ l. transition_of l d) fresh

check_entry-early :
    (r : Raise) (d : DedupEngine) (e : DedupEntry)
    → IsBeforeUptime d e r
    → check_entry r.at r.at_ms d e ≡ passed
unfolding check_entry
check_entry-early r d e (steady, recent, early) = rw (steady, recent, early) refl

check-early :
    (fp : String) (r : Raise) (d : DedupEngine) (e : DedupEntry)
    → lookup fp (load d.dedup_file) ≡ some e
    → IsBeforeUptime d e r
    → check fp r.at r.at_ms d ≡ passed
unfolding check
check-early fp r d e found early = rw (check, found) (check_entry-early r d e early)

not_or : (x y : Bool) → x ≡ true → y ≡ false → (not x || y) ≡ false
not_or x y e f = rw (e, f) refl

if-false {ℓ} : {A : Type ℓ} (c : Bool) (x y : A) → c ≡ false → (if c then x else y) ≡ y
if-false c x y e = rw e refl

recorded-early :
    (fp : String) (a : AlertInput) (r : Raise) (d : DedupEngine) (e : DedupEntry)
    (state : Store DedupEntry)
    → IsBeforeUptime d e r
    → recorded fp a r.at r.at_ms d (some e) state ≡ state
unfolding recorded
recorded-early fp a r d e state (steady, recent, early) =
    if-false _ _ _ (not_or (is_recent (get_cooldown_sec d) r.at e) (is_skewed r.at e) recent steady)

record-early :
    (fp : String) (a : AlertInput) (r : Raise) (d : DedupEngine) (e : DedupEntry)
    → lookup fp (load d.dedup_file) ≡ some e
    → IsBeforeUptime d e r
    → record_emission fp a r.at r.at_ms d ≡ record d { dedup_file = saved (load d.dedup_file) }
unfolding record_emission
record-early fp a r d e found early =
    ap (λ o. record d { dedup_file = saved (recorded fp a r.at r.at_ms d o (load d.dedup_file)) })
      found
    ∙ ap (λ state. record d { dedup_file = saved state })
        (recorded-early fp a r d e (load d.dedup_file) early)

evaluate-early :
    (sha1 : String → String) (a : AlertInput) (r : Raise) (d : DedupEngine) (e : DedupEntry)
    → stale_entries a (load d.dedup_file) ≡ []
    → lookup (fingerprint_of sha1 a) (load d.dedup_file) ≡ some e
    → IsBeforeUptime d e r
    → evaluate sha1 a r.at r.at_ms d ≡ (passed, record d { dedup_file = saved (load d.dedup_file) })
unfolding evaluate evaluate_after
evaluate-early sha1 a r d e fresh found early =
    let fp = fingerprint_of sha1 a in
    ap (evaluate_after fp a r.at r.at_ms) (no_transition a d fresh)
    ∙ ap
        (λ c. (
          c,
          if not c.suppressed then record_emission fp a r.at r.at_ms d else record_suppression fp d,
        ))
        (check-early fp r d e found early)
    ∙ ap (λ x. (passed, x)) (record-early fp a r d e found early)

-- After a restart of the process the cooldown does not hold. For an alert whose agent has no entry of
-- another state: while the uptime is below the uptime at which the alert was last sent, the alert is
-- sent each time that it is raised, although it is in its cooldown by the wall clock.
pub sent_early :
    (sha1 : String → String) (a : AlertInput) (raises : List Raise) (d : DedupEngine)
    (e : DedupEntry)
    → stale_entries a (load d.dedup_file) ≡ []
    → lookup (fingerprint_of sha1 a) (load d.dedup_file) ≡ some e
    → All (IsBeforeUptime d e) raises
    → All (λ was_sent. was_sent ≡ true) (sent_of sha1 a raises d)
unfolding sent_of load
sent_early sha1 a [] d e fresh found early = tt
sent_early sha1 a (r ∷ later) d e fresh found (now_early, later_early) =
    let out = evaluate-early sha1 a r d e fresh found now_early in
    rw out (
      refl,
      sent_early sha1 a later (record d { dedup_file = saved (load d.dedup_file) }) e fresh found
          later_early,
    )
