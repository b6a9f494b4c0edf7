-- ===== src/Prelude/Lists.antt =====
-- Lists measured by native numbers, searched by Boolean tests.
use Prim.Native.Nat.{ℕ, zero, suc, ◌+◌, ◌-◌}
use mathlib.Core.Path.{◌≡◌, refl, ap}
use mathlib.Core.List.{List, [], ◌∷◌, ◌++◌}
use mathlib.Core.Bool.{Bool, true, false}
use mathlib.Core.Option.{Option, none, some}
use native.Mathlib.Omega.{arith}
use mathlib.Core.Logic.{◌↔◌, ◌⊎◌, inl, inr}
use mathlib.Core.Bool.{◌&&◌}
use coredns_ez.Prelude.Tests.{if◌then◌else◌, HasTest, ◌==◌, Bool-cases}

module _ {ℓ} {A : Type ℓ} where
  abbrev pub length : List A → ℕ
  length [] = 0
  length (x ∷ xs) = suc (length xs)

  -- Go's `l[n:]`.
  abbrev pub drop : ℕ → List A → List A
  drop zero xs = xs
  drop (suc n) [] = []
  drop (suc n) (x ∷ xs) = drop n xs

  abbrev pub take : ℕ → List A → List A
  take zero xs = []
  take (suc n) [] = []
  take (suc n) (x ∷ xs) = x ∷ take n xs

  pub length-append : (xs ys : List A) → length (xs ++ ys) ≡ length xs + length ys
  length-append [] ys = omega arith
  length-append (x ∷ xs) ys = omega (arith, length-append xs ys)

  pub length-drop : (n : ℕ) (xs : List A) → length (drop n xs) ≡ length xs - n
  length-drop zero xs = omega arith
  length-drop (suc n) [] = omega arith
  length-drop (suc n) (x ∷ xs) = omega (arith, length-drop n xs)

  -- The last entry, Go's `l[len(l)-1]`.
  abbrev pub last : List A → Option A
  last [] = none
  last (x ∷ []) = some x
  last (x ∷ y ∷ ys) = last (y ∷ ys)

  pub last-append : (xs : List A) (y : A) → last (xs ++ y ∷ []) ≡ some y
  last-append [] y = refl
  last-append (x ∷ []) y = refl
  last-append (x ∷ z ∷ xs) y = last-append (z ∷ xs) y

  -- All but the last entry.
  abbrev pub init : List A → List A
  init [] = []
  init (x ∷ []) = []
  init (x ∷ y ∷ ys) = x ∷ init (y ∷ ys)

  pub init-append : (xs : List A) (y : A) → init (xs ++ y ∷ []) ≡ xs
  init-append [] y = refl
  init-append (x ∷ []) y = refl
  init-append (x ∷ z ∷ xs) y = ap (◌∷◌ x) (init-append (z ∷ xs) y)

  abbrev pub get_elem? : List A → ℕ → Option A
  get_elem? [] i = none
  get_elem? (x ∷ xs) zero = some x
  get_elem? (x ∷ xs) (suc i) = get_elem? xs i

  -- Go's `append(l[:i], l[i+1:]...)`.
  abbrev pub remove_at : ℕ → List A → List A
  remove_at i [] = []
  remove_at zero (x ∷ xs) = xs
  remove_at (suc i) (x ∷ xs) = x ∷ remove_at i xs

  -- Go's `l[i] = f(l[i])`.
  abbrev pub modify : ℕ → (A → A) → List A → List A
  modify i f [] = []
  modify zero f (x ∷ xs) = f x ∷ xs
  modify (suc i) f (x ∷ xs) = x ∷ modify i f xs

  -- Whether some entry passes a test.
  abbrev pub some_of : (A → Bool) → List A → Bool
  some_of p [] = false
  some_of p (x ∷ xs) = if p x then true else some_of p xs

  -- Those entries that pass a test, in order.
  abbrev pub keep : (A → Bool) → List A → List A
  keep p [] = []
  keep p (x ∷ xs) = let rest = keep p xs in if p x then x ∷ rest else rest

-- A predicate of every entry.
abbrev pub All {ℓ κ} : {A : Type ℓ} → (A → Type κ) → List A → Type κ
All P [] = Unit
All P (x ∷ xs) = P x × All P xs

-- whether two lists have equal entries in the same order
abbrev list_test {ℓ} : {A : Type ℓ} ⦃e : HasTest A⦄ → List A → List A → Bool
list_test [] [] = true
list_test [] (y ∷ ys) = false
list_test (x ∷ xs) [] = false
list_test (x ∷ xs) (y ∷ ys) = x == y && list_test xs ys

pub list_test-true {ℓ} :
    {A : Type ℓ} ⦃e : HasTest A⦄ (xs ys : List A) → list_test xs ys ≡ true → xs ≡ ys
list_test-true [] [] p = refl
list_test-true [] (y ∷ ys) p = absurd (cc p)
list_test-true (x ∷ xs) [] p = absurd (cc p)
list_test-true ⦃e⦄ (x ∷ xs) (y ∷ ys) p = elim (Bool-cases (x == y)) [
  | inl same ↦ cc ((e.test_iff x y).0 same, list_test-true xs ys (ground (arith, p, same)))
  | inr other ↦ ground (arith, p, other)
]

pub list_test_refl {ℓ} : {A : Type ℓ} ⦃e : HasTest A⦄ (xs : List A) → list_test xs xs ≡ true
list_test_refl [] = refl
list_test_refl ⦃e⦄ (x ∷ xs) = rw ((e.test_iff x x).1 refl) (list_test_refl xs)

pub list_test_iff {ℓ} :
    {A : Type ℓ} ⦃e : HasTest A⦄ (xs ys : List A) → (list_test xs ys ≡ true) ↔ (xs ≡ ys)
list_test_iff xs ys = (list_test-true xs ys, λ p. rw (← p) (list_test_refl xs))

instance abbrev pub list_tests {ℓ} : {A : Type ℓ} ⦃e : HasTest A⦄ → HasTest (List A)
list_tests = record { test = list_test; test_iff = list_test_iff }

-- an entry that a predicate holds of
pub data Any {ℓ κ} {A : Type ℓ} (P : A → Type κ) : List A → Type (ℓ ⊔ κ) where
  here : (x : A) (xs : List A) → P x → Any P (x ∷ xs)
  there : (x : A) (xs : List A) → Any P xs → Any P (x ∷ xs)

pub Any_map {ℓ κ μ} :
    {A : Type ℓ} {P : A → Type κ} {Q : A → Type μ} (xs : List A)
    → ((x : A) → P x → Q x)
    → Any P xs
    → Any Q xs
Any_map [] f p = elim p [ ]
Any_map (x ∷ xs) f (here _ _ p) = here x xs (f x p)
Any_map (x ∷ xs) f (there _ _ p) = there x xs (Any_map xs f p)

pub Any-entry {ℓ κ} :
    {A : Type ℓ} {P : A → Type κ} (xs : List A) → Any P xs → (x : A) × P x × Any (λ y. y ≡ x) xs
Any-entry [] p = elim p [ ]
Any-entry (x ∷ xs) (here _ _ p) = (x, p, here x xs refl)
Any-entry (x ∷ xs) (there _ _ p) = let (y, q, at) = Any-entry xs p in (y, q, there x xs at)

pub Any_cons_iff {ℓ κ} :
    {A : Type ℓ} {P : A → Type κ} (x : A) (xs : List A) → Any P (x ∷ xs) ↔ (P x ⊎ Any P xs)
Any_cons_iff {P} x xs = (to, from)
  where
    to : Any P (x ∷ xs) → P x ⊎ Any P xs
    to (here _ _ p) = inl p
    to (there _ _ p) = inr p

    from : P x ⊎ Any P xs → Any P (x ∷ xs)
    from (inl p) = here x xs p
    from (inr p) = there x xs p
