-- ===== src/Connection.antt =====
-- A connection to a database and its transactions, as the calls of BEGIN IMMEDIATE, COMMIT and ROLLBACK
-- in verification/ and memory-ordering.ts rely on them. A statement that is refused, which the host
-- decides, changes nothing. SQLite refuses BEGIN in a transaction, and COMMIT and ROLLBACK outside one;
-- a COMMIT that is refused leaves the transaction open.
use threadwork.Prelude.{
  Bool, true, false, ◌&&◌, Option, none, some, is_some, is_none, if◌then◌else◌,
}

-- The contents, and inside a transaction those that it began with.
pub record Connection {ℓ} (D : Type ℓ) : Type ℓ where
  pub contents : D
  pub before : Option D

-- Whether the statement was accepted, and the connection after it.
abbrev pub Stepped {ℓ} : Type ℓ → Type ℓ
Stepped D = Bool × Connection D

module _ {ℓ} {D : Type ℓ} where
  abbrev pub begin_immediate : Bool → Connection D → Stepped D
  begin_immediate accepted c =
      if accepted && is_none c.before
      then (true, record c { before = some c.contents })
      else (false, c)

  -- An INSERT.
  abbrev pub write : Bool → (D → D) → Connection D → Stepped D
  write accepted f c = if accepted then (true, record c { contents = f c.contents }) else (false, c)

  abbrev pub commit : Bool → Connection D → Stepped D
  commit accepted c =
      if accepted && is_some c.before then (true, record c { before = none }) else (false, c)

  abbrev pub restored : Option D → Connection D → Stepped D
  restored none c = (false, c)
  restored (some before) c = (true, record { contents = before; before = none })

  abbrev pub rollback : Bool → Connection D → Stepped D
  rollback accepted c = if accepted then restored c.before c else (false, c)

  -- The next statement of a block that the first refused statement ends.
  abbrev pub and_then : Stepped D → (Connection D → Stepped D) → Stepped D
  and_then (true, c) next = next c
  and_then (false, c) next = (false, c)
