-- ===== src/Prelude/Counts.antt =====
-- How a predicate of all entries, and the number of entries that pass a test, follow the edits of a
-- list.
use Prim.Native.Nat.{ℕ, zero, suc, ◌+◌}
use mathlib.Core.Path.{◌≡◌, refl}
use mathlib.Core.List.{List, [], ◌∷◌, ◌++◌, map}
use mathlib.Core.Bool.{Bool, true, false}
use mathlib.Core.Option.{some}
use native.Mathlib.Omega.{arith}
use coredns_ez.Prelude.Tests.{if◌then◌else◌}
use coredns_ez.Prelude.Lists.{length, keep, remove_at, modify, get_elem?, All, some_of}

module _ {ℓ κ} {A : Type ℓ} (P : A → Type κ) where
  pub All-append : (xs ys : List A) → All P xs → All P ys → All P (xs ++ ys)
  All-append [] ys h g = g
  All-append (x ∷ xs) ys (p, h) g = (p, All-append xs ys h g)

  pub All-keep : (q : A → Bool) (xs : List A) → All P xs → All P (keep q xs)
  All-keep q [] h = h
  All-keep q (x ∷ xs) (p, h) = split (q x) (All-keep q xs h)
    where
      split : (b : Bool) → All P (keep q xs) → All P (if b then x ∷ keep q xs else keep q xs)
      split true rest = (p, rest)
      split false rest = rest

  pub All-remove_at : (i : ℕ) (xs : List A) → All P xs → All P (remove_at i xs)
  All-remove_at i [] h = h
  All-remove_at zero (x ∷ xs) (p, h) = h
  All-remove_at (suc i) (x ∷ xs) (p, h) = (p, All-remove_at i xs h)

  pub All-modify :
      (i : ℕ) (f : A → A) (xs : List A)
      → ((x : A) → P x → P (f x))
      → All P xs
      → All P (modify i f xs)
  All-modify i f [] g h = h
  All-modify zero f (x ∷ xs) g (p, h) = (g x p, h)
  All-modify (suc i) f (x ∷ xs) g (p, h) = (p, All-modify i f xs g h)

pub All-map {ℓ κ ι} :
    {A : Type ℓ} {P : A → Type κ} {Q : A → Type ι} (xs : List A)
    → ((x : A) → P x → Q x)
    → All P xs
    → All Q xs
All-map [] g h = tt
All-map (x ∷ xs) g (p, h) = (g x p, All-map xs g h)

module _ {ℓ} {A : Type ℓ} (p : A → Bool) where
  abbrev pub count : List A → ℕ
  count xs = length (keep p xs)

  pub count-append : (xs ys : List A) → count (xs ++ ys) ≡ count xs + count ys
  count-append [] ys = omega arith
  count-append (x ∷ xs) ys = ground (arith, count-append xs ys)

  pub count-keep :
      (q : A → Bool) (xs : List A)
      → ((x : A) → p x ≡ true → q x ≡ true)
      → count (keep q xs) ≡ count xs
  count-keep q [] h = refl
  count-keep q (x ∷ xs) h = ground (arith, count-keep q xs h, h x)

  pub count-modify :
      (i : ℕ) (f : A → A) (xs : List A)
      → ((x : A) → p (f x) ≡ p x)
      → count (modify i f xs) ≡ count xs
  count-modify i f [] h = refl
  count-modify zero f (x ∷ xs) h = ground (arith, h x)
  count-modify (suc i) f (x ∷ xs) h = ground (arith, count-modify i f xs h)

  pub count-remove_at :
      (i : ℕ) (xs : List A) (x : A)
      → get_elem? xs i ≡ some x
      → count xs ≡ (if p x then 1 else 0) + count (remove_at i xs)
  count-remove_at i [] x h = ground arith
  count-remove_at zero (y ∷ xs) x h = ground (arith, h)
  count-remove_at (suc i) (y ∷ xs) x h = ground (arith, count-remove_at i xs x h)

module _ {ℓ} {A : Type ℓ} (p : A → Bool) where
  pub some_of-keep :
      (q : A → Bool) (xs : List A) → some_of p (keep q xs) ≡ true → some_of p xs ≡ true
  some_of-keep q [] h = h
  some_of-keep q (x ∷ xs) h = ground (arith, h, some_of-keep q xs)

  pub some_of-remove_at :
      (i : ℕ) (xs : List A) → some_of p (remove_at i xs) ≡ true → some_of p xs ≡ true
  some_of-remove_at i [] h = h
  some_of-remove_at zero (x ∷ xs) h = ground (arith, h)
  some_of-remove_at (suc i) (x ∷ xs) h = ground (arith, h, some_of-remove_at i xs)

  pub some_of-modify :
      (i : ℕ) (f : A → A) (xs : List A)
      → ((x : A) → p (f x) ≡ p x)
      → some_of p (modify i f xs) ≡ some_of p xs
  some_of-modify i f [] h = refl
  some_of-modify zero f (x ∷ xs) h = ground (arith, h x)
  some_of-modify (suc i) f (x ∷ xs) h = ground (arith, some_of-modify i f xs h)

  pub some_of-append :
      (xs : List A) (y : A) → some_of p (xs ++ y ∷ []) ≡ (if some_of p xs then true else p y)
  some_of-append [] y = ground arith
  some_of-append (x ∷ xs) y = ground (arith, some_of-append xs y)

-- What is kept passes the test.
pub All-kept {ℓ} : {A : Type ℓ} (q : A → Bool) (xs : List A) → All (λ x. q x ≡ true) (keep q xs)
All-kept q [] = tt
All-kept q (x ∷ xs) = split (q x) refl (All-kept q xs)
  where
    split :
        (b : Bool)
        → q x ≡ b
        → All (λ y. q y ≡ true) (keep q xs)
        → All (λ y. q y ≡ true) (if b then x ∷ keep q xs else keep q xs)
    split true e rest = (e, rest)
    split false e rest = rest

pub All-image {ℓ κ} :
    {A : Type ℓ} (P : A → Type κ) (f : A → A) (xs : List A)
    → All (λ x. P (f x)) xs
    → All P (map f xs)
All-image P f [] h = h
All-image P f (x ∷ xs) (p, h) = (p, All-image P f xs h)
