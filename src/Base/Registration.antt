-- ===== src/Base/Registration.antt =====
-- What the two catalogues keyed by an id share: the declaration of an id in a list of entries, and
-- the entries of a list whose id a map does not hold yet.
use helmdeep.Base.Tests.{if◌then◌else◌}
use helmdeep.Base.Maps.{Dict, lookup, insert, lookup-insert}
use Prim.Native.String.{String}
use mathlib.Core.Path.{◌≡◌}
use mathlib.Core.Logic.{◌↔◌}
use mathlib.Core.Option.{Option, none, some}
use mathlib.Core.List.{List, [], ◌∷◌}
use native.Mathlib.Omega.{arith}
use text.Mathlib.Text.{◌==◌}
use text.Mathlib.TextEquality.{eq_iff}

module _ {E : Type 0} (key : E → String) where
  -- The first entry of the list with this id.
  abbrev pub declared : String → List E → Option E
  declared id [] = none
  declared id (e ∷ es) = if key e == id then some e else declared id es

  abbrev pub Fresh : List E → Dict E → Type 0
  Fresh [] m = Unit
  Fresh (e ∷ es) m = (lookup (key e) m ≡ none) × Fresh es m

  pub Fresh-nil : (es : List E) → Fresh es []
  Fresh-nil [] = tt
  Fresh-nil (e ∷ es) = (ground arith, Fresh-nil es)

  pub Fresh-insert :
      (id : String) (x : E) (es : List E) (m : Dict E)
      → Fresh es (insert id x m) ↔ (Fresh es m × (declared id es ≡ none))
  Fresh-insert id x [] m = ground arith
  Fresh-insert id x (e ∷ es) m = ground (
    arith,
    Fresh-insert id x es m,
    lookup-insert id (key e) x m,
    eq_iff id (key e),
    eq_iff (key e) id,
  )

-- A value that stands in a map hides the declaration that would be added.
abbrev pub either {ℓ} : {E : Type ℓ} → Option E → Option E → Option E
either (some e) other = some e
either none other = other
