-- ===== src/Ordering.antt =====
-- The write transactions of src/memory-ordering.ts on one database handle. What each statement of the
-- transaction gives is the host's: the outcome of each BEGIN IMMEDIATE, and whether COMMIT and
-- ROLLBACK are accepted. A callback is any function on the handle, which may use transactions itself.
pub mod Whole
use threadwork.Prelude.{
  ℕ, suc, ◌+◌, Bool, true, false, Option, none, some, List, [], ◌∷◌, if◌then◌else◌,
}
use threadwork.Connection.{Connection, commit, rollback}

-- What an attempt to begin gives.
pub data Outcome : Type 0 where
  begun nested busy failed : Outcome

pub data LockError : Type 0 where
  nested_write_txn write_lock_timeout begin_failed : LockError

pub data Result {ℓ} (E T : Type ℓ) : Type ℓ where
  returned : T → Result E T
  threw : E → Result E T
  refused : LockError → Result E T
  commit_failed : Result E T

pub record Host : Type 0 where
  pub attempt : ℕ → Outcome
  pub commits : Bool
  pub rolls_back : Bool

abbrev pub busy_retry_delays_ms : List ℕ
busy_retry_delays_ms = 50 ∷ 150 ∷ 450 ∷ []

-- The error of the last attempt, if it has one, and the delays that were slept.
abbrev pub Acquired : Type 0
Acquired = Option LockError × List ℕ

-- SQLite refuses a transaction inside one, whatever its locks are.
abbrev pub outcome_in {ℓ} : {D : Type ℓ} → Option D → Outcome → Outcome
outcome_in none o = o
outcome_in (some before) o = nested

abbrev pub after_attempt : Outcome → Acquired → Acquired
after_attempt begun retried = (none, [])
after_attempt nested retried = (some nested_write_txn, [])
after_attempt busy retried = retried
after_attempt failed retried = (some begin_failed, [])

-- The attempts from number `i` on, with the delays that are left.
unfoldable pub acquire_write_lock : (ℕ → Outcome) → ℕ → List ℕ → Acquired
acquire_write_lock attempt i [] = after_attempt (attempt i) (some write_lock_timeout, [])
acquire_write_lock attempt i (delay ∷ later) =
    let rest = acquire_write_lock attempt (suc i) later in
    after_attempt (attempt i) (rest.0, delay ∷ rest.1)

-- The connection, and whether a write transaction is marked as active on the handle.
pub record Handle {ℓ} (D : Type ℓ) : Type ℓ where
  pub connection : Connection D
  pub active : Bool

module _ {ℓ} {D : Type ℓ} where
  abbrev pub unmarked : Connection D → Handle D
  unmarked c = record { connection = c; active = false }

  -- The catch block: a ROLLBACK that fails is swallowed.
  abbrev pub rolled_back : Host → Connection D → Handle D
  rolled_back host c = unmarked (rollback host.rolls_back c).1

  abbrev pub started : Handle D → Handle D
  started h = record {
    connection = record { contents = h.connection.contents; before = some h.connection.contents };
    active = true;
  }

module _ {ℓ} {D E T : Type ℓ} where
  abbrev pub after_commit : Host → T → Bool × Connection D → Result E T × Handle D
  after_commit host t (true, c) = (returned t, unmarked c)
  after_commit host t (false, c) = (commit_failed, rolled_back host c)

  -- What follows the callback.
  abbrev pub committed : Host → Result E T × Handle D → Result E T × Handle D
  committed host (returned t, h) = after_commit host t (commit host.commits h.connection)
  committed host (threw e, h) = (threw e, rolled_back host h.connection)
  committed host (refused e, h) = (refused e, rolled_back host h.connection)
  committed host (commit_failed, h) = (commit_failed, rolled_back host h.connection)

  abbrev pub once_acquired :
      Option LockError
      → Host
      → (Handle D → Result E T × Handle D)
      → Handle D
      → Result E T × Handle D
  once_acquired (some e) host fn h = (refused e, h)
  once_acquired none host fn h = committed host (fn (started h))

  unfoldable pub with_memory_write_txn :
      Host → (Handle D → Result E T × Handle D) → Handle D → Result E T × Handle D
  unfolding acquire_write_lock
  with_memory_write_txn host fn h =
      let attempt = λ (i : ℕ). outcome_in h.connection.before (host.attempt i) in
      if h.active
      then (refused nested_write_txn, h)
      else once_acquired (acquire_write_lock attempt 0 busy_retry_delays_ms).0 host fn h
