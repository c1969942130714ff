-- ===== src/Base/Maps.antt =====
-- Go's `map[string]V` as an association list: a write replaces the value at its key, or adds the
-- pair at the end, so no key stands twice.
use Prim.Native.Nat.{◌+◌, ◌≤◌}
use Prim.Native.String.{String}
use mathlib.Core.Path.{◌≡◌, refl}
use mathlib.Core.Option.{Option, none, some}
use mathlib.Core.List.{List, [], ◌∷◌}
use native.Mathlib.Omega.{arith}
use text.Mathlib.Text.{◌==◌}
use text.Mathlib.TextEquality.{eq_iff}
use text.Mathlib.TextPositions.{eq_refl}
use helmdeep.Base.Tests.{if◌then◌else◌, is_some}
use helmdeep.Base.Lists.{length}

abbrev pub Dict {ℓ} : Type ℓ → Type ℓ
Dict V = List (String × V)

module _ {ℓ} {V : Type ℓ} where
  abbrev pub lookup : String → Dict V → Option V
  lookup key [] = none
  lookup key ((held, value) ∷ rest) = if held == key then some value else lookup key rest

  abbrev pub insert : String → V → Dict V → Dict V
  insert key new [] = (key, new) ∷ []
  insert key new ((held, value) ∷ rest) =
      if held == key then (key, new) ∷ rest else (held, value) ∷ insert key new rest

  -- A read after a write, at any key.
  pub lookup-insert :
      (key asked : String) (new : V) (dict : Dict V)
      → lookup asked (insert key new dict) ≡ (if key == asked then some new else lookup asked dict)
  lookup-insert key asked new [] = refl
  lookup-insert key asked new ((held, value) ∷ rest) = ground (
    lookup-insert key asked new rest,
    eq_iff held asked,
    eq_iff key asked,
    eq_iff held key,
    arith,
  )

  pub lookup-insert_self :
      (key : String) (new : V) (dict : Dict V) → lookup key (insert key new dict) ≡ some new
  lookup-insert_self key new dict = simp (lookup-insert, eq_refl)

  pub length-insert :
      (key : String) (new : V) (dict : Dict V)
      → length (insert key new dict)
        ≡ (if is_some (lookup key dict) then length dict else length dict + 1)
  length-insert key new [] = ground arith
  length-insert key new ((held, value) ∷ rest) = ground (length-insert key new rest, arith)

  pub length-insert-le :
      (key : String) (new : V) (dict : Dict V) → length (insert key new dict) ≤ length dict + 1
  length-insert-le key new [] = omega arith
  length-insert-le key new ((held, value) ∷ rest) = ground (length-insert-le key new rest, arith)
