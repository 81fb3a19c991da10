-- ===== src/Base/Maps.antt =====
-- A Go map with string keys: an association list, whose first entry for a key counts.
-- The order of its entries is never read, as Go leaves it open.
use Prim.Native.String.{String}
use mathlib.Core.Path.{◌≡◌, refl}
use mathlib.Core.Option.{Option, none, some}
use mathlib.Core.List.{List, [], ◌∷◌}
use native.Mathlib.Omega.{arith}
use text.Mathlib.Text.{◌==◌}
use text.Mathlib.TextEquality.{eq_iff}
use griffino_go.Base.Tests.{if◌then◌else◌}

abbrev pub Map {ℓ} : Type ℓ → Type ℓ
Map V = List (String × V)

module _ {ℓ} {V : Type ℓ} where
  -- `delete(m, key)`
  unfoldable pub delete : (key : String) → Map V → Map V
  delete key [] = []
  delete key ((at, value) ∷ m) =
      let rest = delete key m in if at == key then rest else (at, value) ∷ rest

  -- `m[key] = value`
  unfoldable pub insert : (key : String) (value : V) → Map V → Map V
  insert key value [] = (key, value) ∷ []
  insert key value ((at, old) ∷ m) =
      let rest = insert key value m in if at == key then (at, value) ∷ m else (at, old) ∷ rest

  -- `value, ok := m[key]`
  unfoldable pub lookup : (key : String) → Map V → Option V
  lookup key [] = none
  lookup key ((at, value) ∷ m) = let found = lookup key m in if at == key then some value else found

  pub lookup-delete :
      (gone key : String) (m : Map V)
      → lookup key (delete gone m) ≡ (if gone == key then none else lookup key m)
  unfolding lookup delete
  lookup-delete gone key [] = ground arith
  lookup-delete gone key ((at, value) ∷ m) =
      ground (arith, lookup-delete gone key m, eq_iff at gone, eq_iff at key, eq_iff gone key)

  pub lookup-insert :
      (new key : String) (value : V) (m : Map V)
      → lookup key (insert new value m) ≡ (if new == key then some value else lookup key m)
  unfolding lookup insert
  lookup-insert new key value [] = refl
  lookup-insert new key value ((at, old) ∷ m) =
      ground (arith, lookup-insert new key value m, eq_iff at new, eq_iff at key, eq_iff new key)

pub ruleset map_laws = (lookup-delete, lookup-insert)
