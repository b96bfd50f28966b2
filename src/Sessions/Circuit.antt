-- ===== src/Sessions/Circuit.antt =====
-- The circuit breaker of an agent (recordFault, tryHalfOpen, closeCircuit, reopenCircuit of db.ts).
use threadwork.Prelude.{
  ℕ, ◌+◌, ◌≤◌, ◌<◌, ◌≡◌, String, true, false, inl, inr, Option-cases, Bool-cases, Option, none,
  some, arith, or_else, min, leb, ltb, ◌&&◌, ◌||◌, if◌then◌else◌, List, [], ◌∷◌,
}
use threadwork.Prelude.Store.{lookup, insert, lookup-insert, lookup-insert_self}
use threadwork.Sessions.{
  Session, Sessions, closed, half_open, fault_threshold, record_fault, try_half_open, close_circuit,
  reopen_circuit, decay_fault, upsert_agent_session, update_session, upsert_session, trip, charge,
  may_half_open, is_circuit_open, is_open,
}

pub data Event : Type 0 where
  seen : ℕ → String → String → String → Event
  fault : ℕ → String → String → Event
  half : ℕ → String → Event
  close : String → Event
  reopen : ℕ → String → Event
  recovered : Option String → Event

unfoldable pub apply : Event → Sessions → Sessions
apply (seen now who session state) s = upsert_agent_session now who session state s
apply (fault now who f) s = (record_fault now who f s).1
apply (half now who) s = (try_half_open now who s).1
apply (close who) s = close_circuit who s
apply (reopen now who) s = reopen_circuit now who s
apply (recovered who) s = decay_fault who s

unfoldable pub run : List Event → Sessions → Sessions
run [] s = s
run (e ∷ es) s = run es (apply e s)

-- A closed circuit has fewer faults than the threshold, and no count passes the threshold by more
-- than one.
pub record IsSound (r : Session) : Type 0 where
  pub capped : or_else r.fault_count 0 ≤ fault_threshold + 1
  pub closed_below :
      or_else r.circuit_state closed ≡ closed → or_else r.fault_count 0 < fault_threshold

pub record AllSound (s : Sessions) : Type 0 where
  pub at : (who : String) (r : Session) → lookup who s ≡ some r → IsSound r

insert-AllSound :
    (who : String) (r : Session) (s : Sessions) → IsSound r → AllSound s → AllSound (insert who r s)
insert-AllSound who r s h all = record {
  at = λ j x e. ground (arith, lookup-insert who j r s, all.at j x, h);
}

update_session-AllSound :
    (who : String) (f : Session → Session) (s : Sessions)
    → ((r : Session) → IsSound r → IsSound (f r))
    → AllSound s
    → AllSound (update_session who f s)
unfolding update_session
update_session-AllSound who f s keeps all = elim (Option-cases (lookup who s)) [
  | inl e ↦ rw (e, update_session) all
  | inr (r, e) ↦ rw (e, update_session) (insert-AllSound who (f r) s (keeps r (all.at who r e)) all)
]

upsert_session-AllSound :
    (who : String) (fresh : Session) (f : Session → Session) (s : Sessions)
    → IsSound fresh
    → ((r : Session) → IsSound r → IsSound (f r))
    → AllSound s
    → AllSound (upsert_session who fresh f s)
unfolding upsert_session
upsert_session-AllSound who fresh f s sound keeps all = elim (Option-cases (lookup who s)) [
  | inl e ↦ rw e (insert-AllSound who fresh s sound all)
  | inr (r, e) ↦ rw e (insert-AllSound who (f r) s (keeps r (all.at who r e)) all)
]

trip-charge-IsSound : (now : ℕ) (f : String) (r : Session) → IsSound (trip now (charge now f r))
unfolding trip charge
trip-charge-IsSound now f r = ground arith

record_fault-AllSound :
    (now : ℕ) (who f : String) (s : Sessions) → AllSound s → AllSound (record_fault now who f s).1
unfolding record_fault
record_fault-AllSound now who f s all = elim (Option-cases (lookup who s)) [
  | inl e ↦ rw (e, record_fault) all
  | inr (r, e) ↦ rw (e, record_fault) (insert-AllSound who _ s (trip-charge-IsSound now f r) all)
]

half_open-IsSound :
    (r : Session) → IsSound r → IsSound (record r { circuit_state = some half_open })
half_open-IsSound r h = ground arith

try_half_open-AllSound :
    (now : ℕ) (who : String) (s : Sessions) → AllSound s → AllSound (try_half_open now who s).1
unfolding try_half_open
try_half_open-AllSound now who s all = elim (Option-cases (lookup who s)) [
  | inl e ↦ rw (e, try_half_open) all
  | inr (r, e) ↦ elim (Bool-cases (may_half_open now r)) [
    | inl m ↦
        rw (e, try_half_open, m)
          (insert-AllSound who _ s (half_open-IsSound r (all.at who r e)) all)
    | inr m ↦ rw (e, try_half_open, m) all
  ]
]

apply-AllSound : (e : Event) (s : Sessions) → AllSound s → AllSound (apply e s)
unfolding apply upsert_agent_session close_circuit reopen_circuit decay_fault
apply-AllSound (seen now who session state) s all =
    upsert_session-AllSound who _ _ s (ground arith) (λ r h. ground arith) all
apply-AllSound (fault now who f) s all = record_fault-AllSound now who f s all
apply-AllSound (half now who) s all = try_half_open-AllSound now who s all
apply-AllSound (close who) s all = update_session-AllSound who _ s (λ r h. ground arith) all
apply-AllSound (reopen now who) s all = update_session-AllSound who _ s (λ r h. ground arith) all
apply-AllSound (recovered none) s all = all
apply-AllSound (recovered (some who)) s all =
    update_session-AllSound who _ s (λ r h. ground arith) all

-- From sessions whose records are sound, every sequence of session registrations, faults, half-open
-- attempts, closings, reopenings and heartbeat decays leads to sound records: a fault count is at
-- most one above the threshold, and below the threshold while the circuit is closed.
pub run-AllSound : (es : List Event) (s : Sessions) → AllSound s → AllSound (run es s)
unfolding run
run-AllSound [] s all = all
run-AllSound (e ∷ es) s all = run-AllSound es (apply e s) (apply-AllSound e s all)

lookup-record_fault :
    (now : ℕ) (who f : String) (r : Session) (s : Sessions)
    → lookup who s ≡ some r
    → lookup who (record_fault now who f s).1 ≡ some (trip now (charge now f r))
unfolding record_fault
lookup-record_fault now who f r s e = rw (e, record_fault) (lookup-insert_self who _ s)

-- For an agent with a session, a fault adds one to the count, up to four. The circuit is open after
-- it exactly if it was open before or the new count is at least three, and only a fault that opens
-- the circuit sets the end of the cooldown, 300 seconds later.
pub record_fault_lem :
    (now : ℕ) (who f : String) (r : Session) (s : Sessions)
    → lookup who s ≡ some r
    → let count = or_else r.fault_count 0 in
      (r' : Session) × (lookup who (record_fault now who f s).1 ≡ some r')
      × (r'.fault_count ≡ some (min (count + 1) 4))
      × (is_open r'.circuit_state ≡ (is_open r.circuit_state || leb 2 count))
      × (r'.cooldown_until
          ≡ (if is_open r.circuit_state || ltb count 2 then r.cooldown_until else some (now + 300)))
unfolding trip charge
record_fault_lem now who f r s e = (
  trip now (charge now f r),
  lookup-record_fault now who f r s e,
  ground arith,
  ground arith,
  ground arith,
)

-- An agent whose circuit is closed with no faults has an open circuit after exactly three faults in
-- a row, whatever they are and whenever they come: not after one, nor after two.
pub faults_open :
    (who f g h : String) (a b c : ℕ) (r : Session) (s : Sessions)
    → lookup who s ≡ some r
    → or_else r.fault_count 0 ≡ 0
    → or_else r.circuit_state closed ≡ closed
    → let s1 = (record_fault a who f s).1 in
      let s2 = (record_fault b who g s1).1 in
      let s3 = (record_fault c who h s2).1 in
      (is_circuit_open who s1 ≡ false)
      × (is_circuit_open who s2 ≡ false)
      × (is_circuit_open who s3 ≡ true)
unfolding trip charge is_circuit_open
faults_open who f g h a b c r s e z k =
    let e1 = lookup-record_fault a who f r s e in
    let e2 = lookup-record_fault b who g _ _ e1 in
    let e3 = lookup-record_fault c who h _ _ e2 in
    (
      rw (e1, is_circuit_open) (ground arith),
      rw (e2, is_circuit_open) (ground arith),
      rw (e3, is_circuit_open) (ground arith),
    )

-- For an agent with a session, a half-open attempt succeeds exactly if the circuit is open and its
-- cooldown, if it has one, is over; then the circuit is half open, and otherwise nothing changes.
pub try_half_open_lem :
    (now : ℕ) (who : String) (r : Session) (s : Sessions)
    → lookup who s ≡ some r
    → try_half_open now who s ≡ (
        if is_open r.circuit_state && leb (or_else r.cooldown_until 0) now
        then (true, insert who (record r { circuit_state = some half_open }) s)
        else (false, s))
unfolding may_half_open try_half_open
try_half_open_lem now who r s e = rw (e, try_half_open) (ground arith)
