-- ===== src/Prelude/Store.antt =====
-- A JavaScript object or `Map` with text keys, in insertion order: writing a key that is there
-- changes its value in place, and writing a new one adds it at the end. A store that is saved as a
-- JSON file is loaded as it was saved, and as the empty store where the file is missing or cannot
-- be parsed.
use Prim.Native.String.{String}
use mathlib.Core.Path.{◌≡◌, refl}
use mathlib.Core.List.{List, [], ◌∷◌}
use mathlib.Core.Option.{Option, none, some}
use native.Mathlib.Omega.{arith}
use text.Mathlib.Text.{◌==◌}
use text.Mathlib.TextEquality.{eq_iff}
use threadwork.Prelude.Tests.{if◌then◌else◌}

abbrev pub Store {ℓ} : Type ℓ → Type ℓ
Store V = List (String × V)

-- What a JSON state file holds.
pub data File {ℓ} (A : Type ℓ) : Type ℓ where
  missing : File A
  corrupt : File A
  saved : A → File A

module _ {ℓ} {V : Type ℓ} where
  unfoldable pub lookup : String → Store V → Option V
  lookup wanted [] = none
  lookup wanted (entry ∷ rest) =
      let later = lookup wanted rest in if entry.0 == wanted then some entry.1 else later

  -- An entry that is there keeps its place.
  unfoldable pub insert : String → V → Store V → Store V
  insert name x [] = (name, x) ∷ []
  insert name x (entry ∷ rest) =
      let later = insert name x rest in if entry.0 == name then (name, x) ∷ rest else entry ∷ later

  unfoldable pub remove : String → Store V → Store V
  remove name [] = []
  remove name (entry ∷ rest) =
      let later = remove name rest in if entry.0 == name then later else entry ∷ later

  unfoldable pub load : File (Store V) → Store V
  load missing = []
  load corrupt = []
  load (saved m) = m

  pub lookup-insert :
      (name wanted : String) (x : V) (table : Store V)
      → lookup wanted (insert name x table)
        ≡ (if name == wanted then some x else lookup wanted table)
  unfolding lookup insert
  lookup-insert name wanted x [] = refl
  lookup-insert name wanted x (entry ∷ rest) =
      let later = lookup-insert name wanted x rest in
      ground (arith, later, eq_iff name wanted, eq_iff entry.0 name, eq_iff entry.0 wanted)

  pub lookup-remove :
      (name wanted : String) (table : Store V)
      → lookup wanted (remove name table) ≡ (if name == wanted then none else lookup wanted table)
  unfolding lookup remove
  lookup-remove name wanted [] = ground arith
  lookup-remove name wanted (entry ∷ rest) =
      let later = lookup-remove name wanted rest in
      ground (arith, later, eq_iff name wanted, eq_iff entry.0 name, eq_iff entry.0 wanted)

  pub lookup-insert_self : (k : String) (v : V) (m : Store V) → lookup k (insert k v m) ≡ some v
  lookup-insert_self k v m = ground (arith, lookup-insert k k v m, eq_iff k k)

  pub load-saved : (m : Store V) → load (saved m) ≡ m
  unfolding load
  load-saved m = refl
