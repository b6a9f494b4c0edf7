-- ===== src/Prelude/Errors.antt =====
-- Fallible code returns a value or an error of the component's own error type.
use mathlib.Core.Path.{◌≡◌, refl}
use native.Mathlib.Omega.{arith}

pub data Result {ℓ} (E A : Type ℓ) : Type ℓ where
  ok : A → Result E A
  err : E → Result E A

infixl 5 ◌>>=◌
abbrev pub ◌>>=◌ {ℓ} : {E A B : Type ℓ} → Result E A → (A → Result E B) → Result E B
ok a >>= f = f a
err e >>= f = err e

-- The value, or another one where there is an error.
abbrev pub value_or {ℓ} : {E A : Type ℓ} → A → Result E A → A
value_or b (ok a) = a
value_or b (err e) = b

-- what a chain that succeeds went through
pub bind_ok {ℓ} :
    {E A B : Type ℓ}
    → (r : Result E A) (f : A → Result E B) (out : B) → (r >>= f) ≡ ok out
    → (a : A) × (r ≡ ok a) × (f a ≡ ok out)
bind_ok (err x) f out e = ground (arith, e)
bind_ok (ok a) f out e = (a, refl, e)
