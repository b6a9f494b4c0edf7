-- ===== src/Cache/Chain.antt =====
-- canonicalName (split-horizon-cache/cache.go): the walk along the CNAME records of an answer.
pub mod Answered
use coredns_ez.Prelude.{
  ℕ, zero, suc, ◌+◌, ◌≤◌, ◌<◌, ◌≡◌, ◌≢◌, ◌⊎◌, refl, inl, inr, String, Bool, true, false, not,
  Option, none, some, List, [], ◌∷◌, ◌&&◌, ◌||◌, length, count, some_of, arith, eq_iff, ◌==◌,
  nat_tests, text_tests, if◌then◌else◌, Bool-cases, Option-cases,
}
use coredns_ez.Dns.{Header, to_lower, type_any, type_cname}
use coredns_ez.Cache.Message.{
  AnswerRr, cname, other, header_of, equal_fold, class_matches, target_from, unique_cname_target,
  contains, add, Walk, terminal, malformed, no_fuel, walk, canonical_name, has_rr, answer_has_type,
}

-- whether a record is a CNAME to a name that is not in the set
abbrev unseen : List String → AnswerRr → Bool
unseen visited (cname h t) = not (contains visited t)
unseen visited (other h d) = false

abbrev points_at : String → AnswerRr → Bool
points_at name (cname h t) = t == name
points_at name (other h d) = false

count-le :
    (p q : AnswerRr → Bool) (xs : List AnswerRr)
    → ((r : AnswerRr) → q r ≡ true → p r ≡ true)
    → count q xs ≤ count p xs
count-le p q [] h = omega arith
count-le p q (x ∷ xs) h = ground (arith, count-le p q xs h, h x)

count-lt :
    (p q w : AnswerRr → Bool) (xs : List AnswerRr)
    → ((r : AnswerRr) → q r ≡ true → p r ≡ true)
    → ((r : AnswerRr) → w r ≡ true → (p r ≡ true) × (q r ≡ false))
    → some_of w xs ≡ true
    → count q xs < count p xs
count-lt p q w [] h g s = ground (arith, s)
count-lt p q w (x ∷ xs) h g s =
    ground
      (arith, count-le p q xs h, h x, g x, s, λ (e : some_of w xs ≡ true). count-lt p q w xs h g e)

seen_before :
    (visited : List String) (name : String) (r : AnswerRr)
    → unseen (add visited name) r ≡ true
    → unseen visited r ≡ true
unfolding contains add
seen_before visited name (cname h t) e = ground (arith, e)
seen_before visited name (other h d) e = ground (arith, e)

seen_self :
    (visited : List String) (h : Header) (t : String)
    → contains visited t ≡ false
    → (unseen visited (cname h t) ≡ true) × (unseen (add visited t) (cname h t) ≡ false)
unfolding contains add
seen_self visited h t new = ground (arith, new, eq_iff (to_lower t) (to_lower t))

seen_now :
    (visited : List String) (name : String) (r : AnswerRr)
    → contains visited name ≡ false
    → points_at name r ≡ true
    → (unseen visited r ≡ true) × (unseen (add visited name) r ≡ false)
seen_now visited name (cname h t) new e =
    let q = (eq_iff t name).0 e in rw (← q) (seen_self visited h t (rw q new))
seen_now visited name (other h d) new e = ground (arith, e)

-- a new target, if it is not the one at hand, is that of a record
target_from-points :
    (t0 : String) (answer : List AnswerRr) (owner : String) (qclass : ℕ) (t : String)
    → target_from t0 answer owner qclass ≡ some t
    → (t0 ≡ t) ⊎ (some_of (points_at t) answer ≡ true)
unfolding target_from
target_from-points t0 [] owner qclass t e = inl (cc)
target_from-points t0 (other h d ∷ answer) owner qclass t e =
    ground (arith, target_from-points t0 answer owner qclass t e)
target_from-points t0 (cname h u ∷ answer) owner qclass t e = ground (
  arith,
  e,
  eq_iff u t,
  target_from-points t0 answer owner qclass t,
  target_from-points u answer owner qclass t,
)

points_at-count :
    (answer : List AnswerRr) (visited : List String) (name : String)
    → contains visited name ≡ false
    → some_of (points_at name) answer ≡ true
    → count (unseen (add visited name)) answer < count (unseen visited) answer
points_at-count answer visited name new e =
    count-lt (unseen visited) (unseen (add visited name)) (points_at name) answer
      (seen_before visited name) (λ r. seen_now visited name r new) e

count-le-length : (p : AnswerRr → Bool) (xs : List AnswerRr) → count p xs ≤ length xs
count-le-length p [] = omega arith
count-le-length p (x ∷ xs) = ground (arith, count-le-length p xs)

walk-target :
    (fuel : ℕ) (answer : List AnswerRr) (qclass : ℕ) (visited : List String) (name : String)
    → ((t : String)
        → some_of (points_at t) answer ≡ true
        → walk fuel answer qclass (add visited name) t ≢ no_fuel)
    → walk (suc fuel) answer qclass visited name ≢ no_fuel
unfolding walk unique_cname_target
walk-target fuel answer qclass visited name rest =
    split (unique_cname_target answer name qclass) refl
  where
    split :
        (o : Option String)
        → unique_cname_target answer name qclass ≡ o
        → walk (suc fuel) answer qclass visited name ≢ no_fuel
    split none q = ground (arith, q)
    split (some t) q =
        ground
          (arith, q, rest t, eq_iff t "", eq_iff "" t, target_from-points "" answer name qclass t q)

walk-Ends :
    (fuel : ℕ) (answer : List AnswerRr) (qclass : ℕ) (visited : List String) (name : String)
    → some_of (points_at name) answer ≡ true
    → count (unseen visited) answer < fuel
    → walk fuel answer qclass visited name ≢ no_fuel
unfolding walk
walk-Ends zero answer qclass visited name p h = absurd (omega arith)
walk-Ends (suc fuel) answer qclass visited name p h = elim (Bool-cases (contains visited name)) [
  | inl e ↦ ground (arith, e)
  | inr e ↦ walk-target fuel answer qclass visited name (λ t q.
      walk-Ends fuel answer qclass (add visited name) t q
        (omega (arith, points_at-count answer visited name e p)))
]

-- The walk along the CNAME records of an answer ends: each round but the first visits the target of
-- another record, so two rounds more than there are records are enough.
pub canonical_name-ends :
    (answer : List AnswerRr) (name : String) (qclass : ℕ)
    → canonical_name answer name qclass ≢ no_fuel
unfolding canonical_name
canonical_name-ends answer name qclass = rw (add_two (length answer)) (
    walk-target (suc (length answer)) answer qclass [] name (λ t q.
      walk-Ends (suc (length answer)) answer qclass (add [] name) t q
        (omega (arith, count-le-length (unseen (add [] name)) answer))))
  where
    add_two : (n : ℕ) → n + 2 ≡ suc (suc n)
    add_two n = omega arith
