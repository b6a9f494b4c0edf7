-- ===== src/Cache/Chain/Answered.antt =====
-- What it means for an answer to resolve its question: the CNAME records of the answer lead from
-- the name to one that has none, and that one owns a record of the type.
use coredns_ez.Prelude.{
  ℕ, zero, suc, ◌+◌, ◌≡◌, ◌≢◌, ◌⊎◌, refl, inl, inr, String, Bool, true, false, not, Option, none,
  some, List, [], ◌∷◌, ◌&&◌, ◌||◌, length, some_of, All, arith, eq_iff, ◌==◌, nat_tests, text_tests,
  Bool-cases,
}
use coredns_ez.Dns.{to_lower, type_any, type_cname}
use coredns_ez.Cache.Message.{
  AnswerRr, cname, other, equal_fold, class_matches, target_from, unique_cname_target, add, Walk,
  terminal, malformed, no_fuel, walk, canonical_name, has_rr, answer_has_type,
}

-- a CNAME of the owner, with this target
abbrev pub aliases : String → ℕ → String → AnswerRr → Bool
aliases owner qclass t (cname h u) =
    class_matches h.class qclass && equal_fold h.name owner && u == t
aliases owner qclass t (other h d) = false

-- not a CNAME of the owner, or one with this target or with none
abbrev pub agrees : String → ℕ → String → AnswerRr → Bool
agrees owner qclass t (cname h u) =
    not (class_matches h.class qclass) || not (equal_fold h.name owner) || u == "" || equal_fold u t
agrees owner qclass t (other h d) = true

-- every CNAME of the owner has this target
abbrev pub Only : List AnswerRr → ℕ → String → String → Type 0
Only answer qclass owner t = All (λ r. agrees owner qclass t r ≡ true) answer

pub data Leads (answer : List AnswerRr) (qclass : ℕ) : String → String → Type 0 where
  here : (name : String) → Leads answer qclass name name
  next :
      (name t end : String)
      → some_of (aliases name qclass t) answer ≡ true
      → t ≢ ""
      → Only answer qclass name t
      → Leads answer qclass t end
      → Leads answer qclass name end

target_from-aliases :
    (t0 : String) (answer : List AnswerRr) (owner : String) (qclass : ℕ) (t : String)
    → target_from t0 answer owner qclass ≡ some t
    → (t0 ≡ t) ⊎ (some_of (aliases owner qclass t) answer ≡ true)
unfolding target_from
target_from-aliases t0 [] owner qclass t e = inl (cc)
target_from-aliases t0 (other h d ∷ answer) owner qclass t e =
    ground (arith, target_from-aliases t0 answer owner qclass t e)
target_from-aliases t0 (cname h u ∷ answer) owner qclass t e = ground (
  arith,
  e,
  eq_iff u t,
  target_from-aliases t0 answer owner qclass t,
  target_from-aliases u answer owner qclass t,
)

equal_fold_refl : (a : String) → equal_fold a a ≡ true
unfolding equal_fold
equal_fold_refl a = (eq_iff (to_lower a) (to_lower a)).1 refl

equal_fold_trans :
    (a b c : String) → equal_fold a b ≡ true → equal_fold b c ≡ true → equal_fold a c ≡ true
unfolding equal_fold
equal_fold_trans a b c e f = ground (
  arith,
  eq_iff (to_lower a) (to_lower b),
  eq_iff (to_lower b) (to_lower c),
  eq_iff (to_lower a) (to_lower c),
)

equal_fold-sym : (a b : String) → equal_fold a b ≡ true → equal_fold b a ≡ true
unfolding equal_fold
equal_fold-sym a b e =
    ground (arith, eq_iff (to_lower a) (to_lower b), eq_iff (to_lower b) (to_lower a))

equal_fold-empty : (a : String) → equal_fold a "" ≡ true → a ≡ ""
unfolding equal_fold to_lower
equal_fold-empty String.[] e = refl
equal_fold-empty (String.◌∷◌ c a) e =
    absurd (cc ((eq_iff (to_lower (String.◌∷◌ c a)) (to_lower "")).0 e))

-- the target before a CNAME, by the one after it
before_fold :
    (t0 u t : String)
    → not (t0 == "") && not (equal_fold t0 u) ≡ false
    → (u ≡ "") ⊎ (equal_fold u t ≡ true)
    → (t0 ≡ "") ⊎ (equal_fold t0 t ≡ true)
before_fold t0 u t e (inl q) = elim (Bool-cases (equal_fold t0 u)) [
  | inl f ↦ inl (equal_fold-empty t0 (rw (← q) f))
  | inr f ↦ inl (ground (arith, e, f, eq_iff t0 ""))
]
before_fold t0 u t e (inr q) = ground (arith, e, q, eq_iff t0 "", equal_fold_trans t0 u t)

target_from-Only :
    (t0 : String) (answer : List AnswerRr) (owner : String) (qclass : ℕ) (t : String)
    → target_from t0 answer owner qclass ≡ some t
    → ((t0 ≡ "") ⊎ (equal_fold t0 t ≡ true)) × Only answer qclass owner t
unfolding target_from
target_from-Only t0 [] owner qclass t e = (inr (ground (arith, e, equal_fold_refl t)), tt)
target_from-Only t0 (other h d ∷ answer) owner qclass t e =
    let (before, rest) = target_from-Only t0 answer owner qclass t e in (before, (refl, rest))
target_from-Only t0 (cname h u ∷ answer) owner qclass t e =
    elim (Bool-cases (not (class_matches h.class qclass) || not (equal_fold h.name owner))) [
      | inl skip ↦
          let (before, rest) =
            target_from-Only t0 answer owner qclass t (ground (arith, e, skip)) in
          (before, (ground (arith, skip), rest))
      | inr take ↦
          let (before_u, rest) =
            target_from-Only u answer owner qclass t (ground (arith, e, take)) in
          (
            before_fold t0 u t (ground (arith, e, take)) before_u,
            (ground (arith, before_u, eq_iff u ""), rest),
          )
    ]

-- the two together, at the start of the loop
unique_cname_target-Only :
    (answer : List AnswerRr) (owner : String) (qclass : ℕ) (t : String)
    → unique_cname_target answer owner qclass ≡ some t
    → ((t ≡ "") ⊎ (some_of (aliases owner qclass t) answer ≡ true)) × Only answer qclass owner t
unfolding unique_cname_target
unique_cname_target-Only answer owner qclass t e = (
  ground (arith, target_from-aliases "" answer owner qclass t e),
  (target_from-Only "" answer owner qclass t e).1,
)

-- the end of the walk, and that it has no CNAME
abbrev pub Resolves : List AnswerRr → ℕ → String → String → Type 0
Resolves answer qclass name end = Leads answer qclass name end × Only answer qclass end ""

walk-Resolves :
    (fuel : ℕ) (answer : List AnswerRr) (qclass : ℕ) (visited : List String) (name end : String)
    → walk fuel answer qclass visited name ≡ terminal end
    → Resolves answer qclass name end
unfolding walk
walk-Resolves zero answer qclass visited name end e = ground (arith, e)
walk-Resolves (suc fuel) answer qclass visited name end e =
    split (unique_cname_target answer name qclass) refl
      (λ t. walk-Resolves fuel answer qclass (add visited name) t end)
  where
    onward :
        (t : String)
        → (t == "" ≡ true) ⊎ (t == "" ≡ false)
        → unique_cname_target answer name qclass ≡ some t
        → (walk fuel answer qclass (add visited name) t ≡ terminal end
            → Resolves answer qclass t end)
        → Resolves answer qclass name end
    onward t (inl stop) q rest =
        let same : name ≡ end = ground (arith, e, q, stop) in
        let none_left = (unique_cname_target-Only answer name qclass t q).1 in
        rw (← same) (here name, rw (← (eq_iff t "").0 stop) none_left)
    onward t (inr more) q rest =
        let (alias, only) = unique_cname_target-Only answer name qclass t q in
        let (leads, last) = rest (ground (arith, e, q, more)) in
        (
          next name t end (ground (arith, alias, more, eq_iff t ""))
              (ground (arith, more, eq_iff t "")) only leads,
          last,
        )

    split :
        (o : Option String)
        → unique_cname_target answer name qclass ≡ o
        → ((t : String)
            → walk fuel answer qclass (add visited name) t ≡ terminal end
            → Resolves answer qclass t end)
        → Resolves answer qclass name end
    split none q rest = ground (arith, e, q)
    split (some t) q rest = onward t (Bool-cases (t == "")) q (rest t)

-- If an answer is found to have the queried type, which is neither CNAME nor ANY, then its CNAME
-- records, each the only one of its owner up to case, lead from the queried name to a name without
-- a CNAME, and the answer has a record of that type and of the class at that name.
pub answer_has_type-Resolves :
    (answer : List AnswerRr) (name : String) (qtype qclass : ℕ)
    → qtype ≢ type_any
    → qtype ≢ type_cname
    → answer_has_type answer name qtype qclass ≡ true
    → (end : String) × Leads answer qclass name end
      × Only answer qclass end ""
      × (has_rr answer end qtype qclass ≡ true)
unfolding answer_has_type canonical_name
answer_has_type-Resolves [] name qtype qclass any alias e = ground (arith, e)
answer_has_type-Resolves (a ∷ answer) name qtype qclass any alias e =
    split (canonical_name (a ∷ answer) name qclass) refl
  where
    split :
        (w : Walk)
        → canonical_name (a ∷ answer) name qclass ≡ w
        → (end : String) × Leads (a ∷ answer) qclass name end
          × Only (a ∷ answer) qclass end ""
          × (has_rr (a ∷ answer) end qtype qclass ≡ true)
    split malformed q = ground (arith, e, q, any, alias)
    split no_fuel q = ground (arith, e, q, any, alias)
    split (terminal end) q =
        let (leads, last) =
          walk-Resolves (length (a ∷ answer) + 2) (a ∷ answer) qclass [] name end q in
        (end, leads, last, ground (arith, e, q, any, alias))
