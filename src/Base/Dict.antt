-- ===== src/Base/Dict.antt =====
-- `HashMap<String, V>` as an association list with one entry for a key.
use Prim.Native.String.{String}
use mathlib.Core.Path.{◌≡◌, refl}
use mathlib.Core.Logic.{◌≢◌}
use mathlib.Core.Option.{Option, none, some}
use mathlib.Core.List.{List, [], ◌∷◌}
use native.Mathlib.Omega.{arith}
use text.Mathlib.Text.{◌==◌}
use text.Mathlib.TextEquality.{eq_iff}
use atomic_mint_swap.Base.Tests.{if◌then◌else◌}

abbrev pub Dict {ℓ} : Type ℓ → Type ℓ
Dict V = List (String × V)

module _ {ℓ} {V : Type ℓ} where
  -- `HashMap::insert`, and an assignment through `get_mut`
  unfoldable pub insert : String → V → Dict V → Dict V
  insert key new [] = (key, new) ∷ []
  insert key new ((k, old) ∷ rest) =
      if k == key then (k, new) ∷ rest else (k, old) ∷ insert key new rest

  -- `HashMap::get`
  unfoldable pub lookup : String → Dict V → Option V
  lookup key [] = none
  lookup key ((k, held) ∷ rest) = if k == key then some held else lookup key rest

  pub lookup-insert :
      (key other : String) (new : V) (d : Dict V)
      → lookup other (insert key new d) ≡ (if key == other then some new else lookup other d)
  unfolding lookup insert
  lookup-insert key other new [] = refl
  lookup-insert key other new ((k, old) ∷ rest) =
      let tail = lookup-insert key other new rest in
      ground (arith, tail, eq_iff k key, eq_iff k other, eq_iff key other)

  pub lookup-insert_self :
      (key : String) (new : V) (d : Dict V) → lookup key (insert key new d) ≡ some new
  lookup-insert_self key new d = ground (arith, lookup-insert key key new d, eq_iff key key)

  pub lookup-insert_ne :
      (key other : String) (new : V) (d : Dict V)
      → key ≢ other
      → lookup other (insert key new d) ≡ lookup other d
  lookup-insert_ne key other new d h =
      ground (arith, lookup-insert key other new d, eq_iff key other)
