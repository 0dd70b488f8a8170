-- ===== src/Prelude/Tests.antt =====
-- Boolean tests, the conditional, and the tests on optional values that the source writes.
use Prim.Native.Nat.{ℕ, compare, Ordering}
use Prim.Native.String.{String}
use mathlib.Core.Path.{◌≡◌, refl}
use mathlib.Core.Logic.{◌⊎◌, inl, inr}
use mathlib.Core.Bool.{Bool, true, false, not}
use mathlib.Core.Option.{Option, none, some}
use text.Mathlib.Text.{◌==◌ as str_eq}

abbrev pub ltb : ℕ → ℕ → Bool
ltb a b = elim (compare a b) [ Ordering.lt ↦ true | _ ↦ false ]

abbrev pub leb : ℕ → ℕ → Bool
leb a b = elim (compare a b) [ Ordering.gt ↦ false | _ ↦ true ]

infix 50 ◌==◌
abbrev pub ◌==◌ : ℕ → ℕ → Bool
a == b = elim (compare a b) [ Ordering.eq ↦ true | _ ↦ false ]

infix 1 if◌then◌else◌
abbrev pub if◌then◌else◌ {ℓ} : {A : Type ℓ} → Bool → A → A → A
if true then x else y = x
if false then x else y = y

pub Bool-cases : (b : Bool) → (b ≡ true) ⊎ (b ≡ false)
Bool-cases true = inl refl
Bool-cases false = inr refl

module _ {ℓ} {A : Type ℓ} where
  pub Option-cases : (o : Option A) → (o ≡ none) ⊎ ((a : A) × (o ≡ some a))
  Option-cases none = inl refl
  Option-cases (some a) = inr (a, refl)

  -- `x !== null`
  abbrev pub is_some : Option A → Bool
  is_some none = false
  is_some (some a) = true

  -- `x === null`
  abbrev pub is_none : Option A → Bool
  is_none none = true
  is_none (some a) = false

  -- `x ?? y`, where both may be null
  abbrev pub or_else : Option A → Option A → Option A
  or_else none y = y
  or_else (some a) y = some a

  -- `x ?? y`, where `y` is a value
  abbrev pub or_value : Option A → A → A
  or_value none d = d
  or_value (some a) d = a

-- `x` as a condition, for a string that may be null: null and "" are false.
abbrev pub truthy : Option String → Bool
truthy none = false
truthy (some s) = not (str_eq s "")

-- `x` as a condition, for a number that may be null: null and 0 are false.
abbrev pub truthy_nat : Option ℕ → Bool
truthy_nat none = false
truthy_nat (some n) = ltb 0 n

-- `x` as a condition, for a flag that may be null.
abbrev pub truthy_bool : Option Bool → Bool
truthy_bool none = false
truthy_bool (some b) = b
