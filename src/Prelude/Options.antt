-- ===== src/Prelude/Options.antt =====
-- A chain of steps that may fail with nothing to say.
use mathlib.Core.Path.{◌≡◌, refl}
use mathlib.Core.Option.{Option, none, some}

infixl 5 ◌>>=◌
abbrev pub ◌>>=◌ {ℓ κ} : {A : Type ℓ} {B : Type κ} → Option A → (A → Option B) → Option B
some a >>= f = f a
none >>= f = none

-- what a chain that succeeds went through
pub bind_some {ℓ κ} :
    {A : Type ℓ} {B : Type κ} (o : Option A) (f : A → Option B) (b : B)
    → (o >>= f) ≡ some b
    → (a : A) × (o ≡ some a) × (f a ≡ some b)
bind_some none f b e = absurd (cc e)
bind_some (some a) f b e = (a, refl, e)

pub some_injective {ℓ} : {A : Type ℓ} {a b : A} → some a ≡ some b → a ≡ b
some_injective e = cc e

-- a step that gives a result
abbrev pub Total {ℓ} : {A : Type ℓ} → Option A → Type ℓ
Total {A = A} o = (a : A) × (o ≡ some a)

pub bind-Total {ℓ κ} :
    {A : Type ℓ} {B : Type κ} (o : Option A) (f : A → Option B)
    → Total o
    → ((a : A) → Total (f a))
    → Total (o >>= f)
bind-Total none f (a, e) h = absurd (cc e)
bind-Total (some x) f t h = h x
