-- ===== src/Prelude/Tests.antt =====
-- Boolean tests on native numbers and texts, and the conditional.
use Prim.Native.Nat.{ℕ, compare, Ordering}
use Prim.Native.String.{String}
use mathlib.Core.Path.{◌≡◌, refl}
use mathlib.Core.Logic.{◌↔◌, ◌⊎◌, inl, inr}
use mathlib.Core.Bool.{Bool, true, false}
use mathlib.Core.Option.{Option, none, some}
use native.Mathlib.Omega.{arith}
use text.Mathlib.Text.{◌==◌ as str_eq}
use text.Mathlib.TextEquality.{eq_iff}

abbrev pub ltb : ℕ → ℕ → Bool
ltb a b = elim (compare a b) [ Ordering.lt ↦ true | _ ↦ false ]

abbrev pub leb : ℕ → ℕ → Bool
leb a b = elim (compare a b) [ Ordering.gt ↦ false | _ ↦ true ]

abbrev nat_test : ℕ → ℕ → Bool
nat_test a b = elim (compare a b) [ Ordering.eq ↦ true | _ ↦ false ]

pub record HasTest {ℓ} (A : Type ℓ) : Type ℓ where
  pub test : A → A → Bool
  pub test_iff : (a b : A) → (test a b ≡ true) ↔ (a ≡ b)

-- One test for every type that has an instance.
infix 50 ◌==◌
abbrev pub ◌==◌ {ℓ} : {A : Type ℓ} ⦃e : HasTest A⦄ → A → A → Bool
◌==◌ ⦃e⦄ = e.test

pub nat_test_iff : (a b : ℕ) → (nat_test a b ≡ true) ↔ (a ≡ b)
nat_test_iff a b = ground arith

instance abbrev pub nat_tests : HasTest ℕ
nat_tests = record { test = nat_test; test_iff = nat_test_iff }

instance abbrev pub text_tests : HasTest String
text_tests = record { test = str_eq; test_iff = eq_iff }

infix 1 if◌then◌else◌
abbrev pub if◌then◌else◌ {ℓ} : {A : Type ℓ} → Bool → A → A → A
if true then x else y = x
if false then x else y = y

-- To split on a computed value and keep the equation.
pub Bool-cases : (b : Bool) → (b ≡ true) ⊎ (b ≡ false)
Bool-cases true = inl refl
Bool-cases false = inr refl

pub Option-cases {ℓ} : {A : Type ℓ} (o : Option A) → (o ≡ none) ⊎ ((a : A) × (o ≡ some a))
Option-cases none = inl refl
Option-cases (some a) = inr (a, refl)

-- What holds of both branches, each under the outcome of its test.
pub if-cases {ℓ κ} :
    {A : Type ℓ} (P : A → Type κ) (b : Bool) (x y : A)
    → (b ≡ true → P x)
    → (b ≡ false → P y)
    → P (if b then x else y)
if-cases P true x y h g = h refl
if-cases P false x y h g = g refl

-- A value that is given under a test, or else another option.
pub if_some {ℓ} :
    {A : Type ℓ} (b : Bool) (x : A) (o : Option A) (y : A)
    → (if b then some x else o) ≡ some y
    → ((b ≡ true) × (x ≡ y)) ⊎ ((b ≡ false) × (o ≡ some y))
if_some true x o y e = inl (refl, cc e)
if_some false x o y e = inr (refl, e)

-- An option that is none under a test.
pub else_some {ℓ} :
    {A : Type ℓ} (b : Bool) (o : Option A) (y : A)
    → (if b then none else o) ≡ some y
    → (b ≡ false) × (o ≡ some y)
else_some true o y e = absurd (cc e)
else_some false o y e = (refl, e)
