-- ===== src/Base/Tests.antt =====
-- Boolean tests on the native numbers, the conditional, and results of calls that may fail.
use Prim.Native.Nat.{ℕ, compare, Ordering}
use mathlib.Core.Path.{◌≡◌, refl}
use mathlib.Core.Logic.{◌⊎◌, inl, inr}
use mathlib.Core.Bool.{Bool, true, false}
use mathlib.Core.Option.{Option, none, some}

abbrev pub ltb : ℕ → ℕ → Bool
ltb a b = elim (compare a b) [ Ordering.lt ↦ true | _ ↦ false ]

abbrev pub leb : ℕ → ℕ → Bool
leb a b = elim (compare a b) [ Ordering.gt ↦ false | _ ↦ true ]

infix 1 if◌then◌else◌
abbrev pub if◌then◌else◌ {ℓ} : {A : Type ℓ} → Bool → A → A → A
if true then x else y = x
if false then x else y = y

pub Bool-cases : (b : Bool) → (b ≡ true) ⊎ (b ≡ false)
Bool-cases true = inl refl
Bool-cases false = inr refl

pub Option-cases {ℓ} : {A : Type ℓ} (o : Option A) → (o ≡ none) ⊎ ((a : A) × (o ≡ some a))
Option-cases none = inl refl
Option-cases (some a) = inr (a, refl)

-- What holds of both branches holds of the conditional.
pub if_elim {ℓ κ} :
    {A : Type ℓ} (P : A → Type κ) (b : Bool) (x y : A) → P x → P y → P (if b then x else y)
if_elim P true x y p q = p
if_elim P false x y p q = q

abbrev pub is_some {ℓ} : {A : Type ℓ} → Option A → Bool
is_some none = false
is_some (some a) = true

-- A pair `(value, error)` of Go: the value, or the error.
pub data Result {ℓ κ} (E : Type κ) (A : Type ℓ) : Type (ℓ ⊔ κ) where
  ok : A → Result E A
  err : E → Result E A

-- An error, or nothing.
abbrev pub Checked : Type 0 → Type 0
Checked E = Result E (Unit {0})

-- Chains of calls that may fail.
infixl 5 ◌>>=◌ ◌>>◌
abbrev pub ◌>>=◌ {ℓ κ} :
    {Fault : Type 0} {Given : Type ℓ} {Next : Type κ}
    → Result Fault Given
    → (Given → Result Fault Next)
    → Result Fault Next
err fault >>= next = err fault
ok given >>= next = next given

abbrev pub ◌>>◌ {ℓ} :
    {Fault : Type 0} {Next : Type ℓ} → Checked Fault → Result Fault Next → Result Fault Next
first >> next = first >>= λ passed. next

-- Go's `if test { return ..., e }`.
abbrev pub fail_if : {E : Type 0} → Bool → E → Checked E
fail_if true e = err e
fail_if false e = ok tt

pub >>=-eq-ok {ℓ κ} :
    {Fault : Type 0} {Given : Type ℓ} {Next : Type κ} (first : Result Fault Given)
    (next : Given → Result Fault Next) {end : Next}
    → ◌≡◌ {A = Result Fault Next} (first >>= next) (ok end)
    → (given : Given) × (first ≡ ok given) × (next given ≡ ok end)
>>=-eq-ok (err fault) next h = cc
>>=-eq-ok (ok given) next h = (given, refl, h)

pub Result-cases {ℓ κ} :
    {E : Type κ} {A : Type ℓ} (r : Result E A) → ((a : A) × (r ≡ ok a)) ⊎ ((e : E) × (r ≡ err e))
Result-cases (ok a) = inl (a, refl)
Result-cases (err e) = inr (e, refl)

-- A signed integer; `negsuc n` is -(n + 1).
pub data ℤ : Type 0 where
  pos : ℕ → ℤ
  negsuc : ℕ → ℤ
