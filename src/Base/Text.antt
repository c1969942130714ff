-- ===== src/Base/Text.antt =====
-- The functions of the Go packages strings and strconv that the gateway uses, on texts.
use Prim.Native.Nat.{ℕ, ◌+◌, ◌-◌, ◌*◌, compare, Ordering}
use Prim.Native.Char.{Char, code}
use Prim.Native.String
use Prim.Native.String.{String, len, slice}
use text.Mathlib.Text.{◌==◌, starts_with}
use mathlib.Core.Path.{◌≡◌, refl}
use mathlib.Core.Logic.{◌≢◌, inl, inr}
use native.Mathlib.Omega.{arith}
use text.Mathlib.TextEquality.{eq_iff}
use mathlib.Core.Bool.{Bool, true, false, ◌&&◌}
use mathlib.Core.Option.{Option, none, some}
use mathlib.Core.List.{List, [], ◌∷◌}
use helmdeep.Base.Tests.{Bool-cases, leb, if◌then◌else◌, ℤ, pos, negsuc}

-- Concatenation of texts; `++` is that of lists.
infixr 65 ◌+++◌
abbrev pub ◌+++◌ : String → String → String
s +++ t = String.◌++◌ s t

abbrev pub eqb : ℕ → ℕ → Bool
eqb a b = elim (compare a b) [ Ordering.eq ↦ true | _ ↦ false ]

abbrev push_front : Char → List String → List String
push_front c [] = (String.◌∷◌ c String.[]) ∷ []
push_front c (p ∷ ps) = (String.◌∷◌ c p) ∷ ps

-- `strings.Split(s, sep)` for a separator of one character.
unfoldable pub split : ℕ → String → List String
split sep String.[] = "" ∷ []
split sep (String.◌∷◌ c s) =
    let rest = split sep s in if eqb (code c) sep then "" ∷ rest else push_front c rest

-- The digits of a decimal number, none if one of them is no digit.
digits : ℕ → String → Option ℕ
digits n String.[] = some n
digits n (String.◌∷◌ c s) =
    let rest = digits (n * 10 + (code c - 48)) s in
    if leb 48 (code c) && leb (code c) 57 then rest else none

abbrev magnitude : String → Option ℕ
magnitude String.[] = none
magnitude (String.◌∷◌ c s) = digits 0 (String.◌∷◌ c s)

abbrev positive : Option ℕ → Option ℤ
positive none = none
positive (some n) = if leb n 9_223_372_036_854_775_807 then some (pos n) else none

abbrev negated : ℕ → ℤ
negated n = if leb n 0 then pos 0 else negsuc (n - 1)

abbrev negative : Option ℕ → Option ℤ
negative none = none
negative (some n) = if leb n 9_223_372_036_854_775_808 then some (negated n) else none

-- `strconv.Atoi`: an optional sign and decimal digits, in the range of a 64-bit integer.
unfoldable pub atoi : String → Option ℤ
unfolding digits
atoi String.[] = none
atoi (String.◌∷◌ c s) =
    if eqb (code c) 45
    then negative (magnitude s)
    else if eqb (code c) 43
    then positive (magnitude s)
    else positive (magnitude (String.◌∷◌ c s))

-- `strings.HasSuffix`, `strings.TrimPrefix` and `strings.TrimSuffix`.
abbrev pub ends_with : String → String → Bool
ends_with s suffix = leb (len suffix) (len s) && slice s (len s - len suffix) (len s) == suffix

abbrev pub trim_prefix : String → String → String
trim_prefix s prefix = if starts_with s prefix then slice s (len prefix) (len s) else s

abbrev pub trim_suffix : String → String → String
trim_suffix s suffix = if ends_with s suffix then slice s 0 (len s - len suffix) else s

trimmed : trim_suffix (trim_prefix "=?base64?aGk=?=" "=?base64?") "?=" ≡ "aGk="
trimmed = refl

-- The test for the empty text, and what it says.
pub ne_of_test : (s : String) → (s == "") ≡ false → s ≢ ""
ne_of_test s h e = absurd (ground (arith, eq_iff s ""))

pub test_of_ne : (s : String) → s ≢ "" → (s == "") ≡ false
test_of_ne s h = elim (Bool-cases (s == "")) [
  | inl blank ↦ absurd (h (ground (arith, eq_iff s "")))
  | inr named ↦ named
]
