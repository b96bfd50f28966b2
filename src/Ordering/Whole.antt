-- ===== src/Ordering/Whole.antt =====
-- What a write transaction leaves (withMemoryWriteTxn of memory-ordering.ts).
use threadwork.Prelude.{
  ℕ, ◌≡◌, refl, Bool, true, false, Option, none, some, if◌then◌else◌, ◌⊎◌, inl, inr, ap, sym,
  Bool-cases,
}
use threadwork.Connection.{Connection}
use threadwork.Ordering.{
  Outcome, LockError, nested_write_txn, Result, returned, threw, refused, commit_failed, Handle,
  Host, acquire_write_lock, committed, started, rolled_back, once_acquired, outcome_in,
  with_memory_write_txn, busy_retry_delays_ms,
}

-- The connection is as it was, or ROLLBACK has failed and the transaction is still open: what it
-- began with is what it was.
abbrev pub IsUndone {ℓ} : {D : Type ℓ} → Host → Handle D → Connection D → Type ℓ
IsUndone host h c =
    (c ≡ h.connection) ⊎ ((host.rolls_back ≡ false) × (c.before ≡ some h.connection.contents))

-- An answer is the callback's, whose contents are committed, and an error leaves all undone.
abbrev pub IsWhole {ℓ} :
    {D E T : Type ℓ}
    → Host
    → (Handle D → Result E T × Handle D)
    → Handle D
    → Result E T
    → Connection D
    → Type ℓ
IsWhole host fn h (returned t) c =
    let out = fn (started h) in
    (out.0 ≡ returned t) × (c.contents ≡ out.1.connection.contents) × (c.before ≡ none)
IsWhole host fn h (threw e) c = IsUndone host h c
IsWhole host fn h (refused e) c = IsUndone host h c
IsWhole host fn h commit_failed c = IsUndone host h c

-- The callback, called in a transaction, neither begins, commits nor rolls back.
abbrev pub IsInside {ℓ} : {D E T : Type ℓ} → (Handle D → Result E T × Handle D) → Type ℓ
IsInside {D = D} fn =
    (h : Handle D) → h.active ≡ true → (fn h).1.connection.before ≡ h.connection.before

-- The lock, on a connection in a transaction or not.
abbrev acquired_in {ℓ} : {D : Type ℓ} → Option D → (ℕ → Outcome) → Option LockError
acquired_in before attempt =
    (acquire_write_lock (λ (i : ℕ). outcome_in before (attempt i)) 0 busy_retry_delays_ms).0

-- Only outside a transaction is it acquired.
acquired_outside {ℓ} :
    {D : Type ℓ} (before : Option D) (attempt : ℕ → Outcome)
    → acquired_in before attempt ≡ none
    → before ≡ none
unfolding acquire_write_lock
acquired_outside none attempt e = refl
acquired_outside (some before) attempt e = cc

module _ {ℓ} {D : Type ℓ} where
  rolled_back-IsUndone :
      (host : Host) (h : Handle D) (c : Connection D)
      → h.connection.before ≡ none
      → c.before ≡ some h.connection.contents
      → ((rolled_back host c).active ≡ false) × IsUndone host h (rolled_back host c).connection
  rolled_back-IsUndone host h c free inside = elim (Bool-cases host.rolls_back) [
    | inl works ↦
        rw (works, inside)
          (refl, inl (λ i. record { contents = h.connection.contents; before = sym free i }))
    | inr fails ↦ rw fails (refl, inr (refl, inside))
  ]

module _ {ℓ} {D E T : Type ℓ} where
  -- A transaction inside one is refused, which changes nothing.
  again-IsInside :
      (host : Host) (fn : Handle D → Result E T × Handle D)
      → IsInside (with_memory_write_txn host fn)
  unfolding with_memory_write_txn
  again-IsInside host fn h marked = rw marked refl

  committed-IsWhole :
      (host : Host) (fn : Handle D → Result E T × Handle D) (h : Handle D)
      (out : Result E T × Handle D)
      → h.connection.before ≡ none
      → fn (started h) ≡ out
      → out.1.connection.before ≡ some h.connection.contents
      → let done = committed host out in
        (done.1.active ≡ false) × IsWhole host fn h done.0 done.1.connection
  committed-IsWhole host fn h (returned t, after) free e inside = elim (Bool-cases host.commits) [
    | inl works ↦
        rw (works, inside)
          (refl, (ap (λ o. o.0) e, ap (λ o. o.1.connection.contents) (sym e), refl))
    | inr fails ↦ rw fails (rolled_back-IsUndone host h after.connection free inside)
  ]
  committed-IsWhole host fn h (threw x, after) free e inside =
      rolled_back-IsUndone host h after.connection free inside
  committed-IsWhole host fn h (refused x, after) free e inside =
      rolled_back-IsUndone host h after.connection free inside
  committed-IsWhole host fn h (commit_failed, after) free e inside =
      rolled_back-IsUndone host h after.connection free inside

  acquired-IsWhole :
      (o : Option LockError) (host : Host) (fn : Handle D → Result E T × Handle D) (h : Handle D)
      → IsInside fn
      → h.active ≡ false
      → (o ≡ none → h.connection.before ≡ none)
      → let done = once_acquired o host fn h in
        (done.1.active ≡ false) × IsWhole host fn h done.0 done.1.connection
  acquired-IsWhole none host fn h inside unmarked free =
      committed-IsWhole host fn h (fn (started h)) (free refl) refl (inside (started h) refl)
  acquired-IsWhole (some e) host fn h inside unmarked free = (unmarked, inl refl)

  unless_active-IsWhole :
      (b : Bool) (o : Option LockError) (host : Host) (fn : Handle D → Result E T × Handle D)
      (h : Handle D)
      → IsInside fn
      → h.active ≡ b
      → (o ≡ none → h.connection.before ≡ none)
      → let done = if b then (refused nested_write_txn, h) else once_acquired o host fn h in
        (done.1.active ≡ b) × IsWhole host fn h done.0 done.1.connection
  unless_active-IsWhole true o host fn h inside marked free = (marked, inl refl)
  unless_active-IsWhole false o host fn h inside unmarked free =
      acquired-IsWhole o host fn h inside unmarked free

  -- A write transaction is whole. Where the callback neither begins, commits nor rolls back, and may
  -- change the contents otherwise, throw, or call this function again: whatever the attempts to
  -- begin give and whether COMMIT and ROLLBACK are accepted, an answer is the callback's, with its
  -- contents committed; after an error the connection is as it was, or ROLLBACK has failed and the
  -- transaction is still open on the contents as they were; and the handle is marked as active
  -- exactly if it was.
  pub txn-IsWhole :
      (host : Host) (fn : Handle D → Result E T × Handle D) (h : Handle D)
      → IsInside fn
      → let done = with_memory_write_txn host fn h in
        (done.1.active ≡ h.active) × IsWhole host fn h done.0 done.1.connection
  unfolding with_memory_write_txn
  txn-IsWhole host fn h inside =
      unless_active-IsWhole h.active (acquired_in h.connection.before host.attempt) host fn h inside
        refl (acquired_outside h.connection.before host.attempt)
