-- ===== src/Admin/Filter/Maps.antt =====
-- What the four maps of the filter engine hold, in terms of the rules.
use coredns_ez.Prelude.{
  ◌≡◌, ◌↔◌, ◌⊎◌, refl, inl, inr, Bool, true, false, List, [], ◌∷◌, ◌==◌, nat_tests, list_tests,
  list_test_iff, arith, Bool-cases, Any, here, there, if◌then◌else◌, not, ◌&&◌,
}
use coredns_ez.JournalText.Scan.{Text}
use coredns_ez.Admin.Filter.{
  FilterRule, filter_allow, FilterEngine, has_pattern, put_pattern, new_filter_engine, put_rule,
  put_rules, replace,
}

-- the map for allowed or blocked names, with or without the name itself
abbrev pub set_of : Bool → Bool → FilterEngine → List Text
set_of true true e = e.allow_kids
set_of true false e = e.allow_self
set_of false true e = e.block_kids
set_of false false e = e.block_self

abbrev pub Puts : Bool → Bool → Text → FilterRule → Type 0
Puts a k p r = ((r.action == filter_allow) ≡ a) × (r.kids_only ≡ k) × (r.pattern ≡ p)

-- put_rule, by the outcome of its tests
abbrev put_at : Bool → Bool → Text → FilterEngine → FilterEngine
put_at true true q e = record e { allow_kids = put_pattern q e.allow_kids }
put_at false true q e = record e { block_kids = put_pattern q e.block_kids }
put_at true false q e = record e { allow_self = put_pattern q e.allow_self }
put_at false false q e = record e { block_self = put_pattern q e.block_self }

has_pattern-put_pattern :
    (p q : Text) (ps : List Text)
    → (has_pattern p (put_pattern q ps) ≡ true) ↔ ((q ≡ p) ⊎ (has_pattern p ps ≡ true))
unfolding put_pattern has_pattern
has_pattern-put_pattern p q ps = elim (Bool-cases (has_pattern q ps)) [
  | inl known ↦ (
    λ h. inr (ground (arith, h, known)),
    λ s. elim s [ inl same ↦ rw (known, ← same) known | inr h ↦ ground (arith, h, known) ],
  )
  | inr new ↦ rw new (elim (Bool-cases (q == p)) [
    | inl same ↦ (λ h. inl ((list_test_iff q p).0 same), λ s. ground (arith, same))
    | inr other ↦ (
      λ h. inr (ground (arith, h, other)),
      λ s. elim s [
        | inl same ↦ absurd (cc ((list_test_iff q p).1 same, other))
        | inr h ↦ ground (arith, h, other)
      ],
    )
  ])
]

abbrev same_set : Bool → Bool → Bool → Bool → Bool
same_set a k b l = (if a then b else not b) && (if k then l else not l)

-- putting a pattern changes one of the four maps
set_of-put :
    (a k b l : Bool) (q : Text) (e : FilterEngine)
    → set_of a k (put_at b l q e)
      ≡ (if same_set a k b l then put_pattern q (set_of a k e) else set_of a k e)
set_of-put true true true true q e = refl
set_of-put true true true false q e = refl
set_of-put true true false true q e = refl
set_of-put true true false false q e = refl
set_of-put true false true true q e = refl
set_of-put true false true false q e = refl
set_of-put true false false true q e = refl
set_of-put true false false false q e = refl
set_of-put false true true true q e = refl
set_of-put false true true false q e = refl
set_of-put false true false true q e = refl
set_of-put false true false false q e = refl
set_of-put false false true true q e = refl
set_of-put false false true false q e = refl
set_of-put false false false true q e = refl
set_of-put false false false false q e = refl

same_set_iff : (a k b l : Bool) → (same_set a k b l ≡ true) ↔ ((b ≡ a) × (l ≡ k))
same_set_iff true true b l = ground arith
same_set_iff true false b l = ground arith
same_set_iff false true b l = ground arith
same_set_iff false false b l = ground arith

put_rule-put_at :
    (r : FilterRule) (e : FilterEngine)
    → put_rule r e ≡ put_at (r.action == filter_allow) r.kids_only r.pattern e
unfolding put_rule
put_rule-put_at r e = elim (Bool-cases r.kids_only) [
  | inl k ↦ elim (Bool-cases (r.action == filter_allow)) [
    | inl a ↦ rw (k, a) refl
    | inr a ↦ rw (k, a) refl
  ]
  | inr k ↦ elim (Bool-cases (r.action == filter_allow)) [
    | inl a ↦ rw (k, a) refl
    | inr a ↦ rw (k, a) refl
  ]
]

has_pattern-put_rule :
    (a k : Bool) (p : Text) (r : FilterRule) (e : FilterEngine)
    → (has_pattern p (set_of a k (put_rule r e)) ≡ true)
      ↔ (Puts a k p r ⊎ (has_pattern p (set_of a k e) ≡ true))
has_pattern-put_rule a k p r e =
    rw (put_rule-put_at r e, set_of-put a k (r.action == filter_allow) r.kids_only r.pattern e)
      (elim (Bool-cases (same_set a k (r.action == filter_allow) r.kids_only)) [
        | inl same ↦
            let (allows, kids) = (same_set_iff a k _ _).0 same in
            let (to, from) = has_pattern-put_pattern p r.pattern (set_of a k e) in
            rw same (
              λ h. elim (to h) [ inl it ↦ inl (allows, kids, it) | inr before ↦ inr before ],
              λ s. elim s [ inl puts ↦ from (inl puts.2) | inr before ↦ from (inr before) ],
            )
        | inr other ↦ rw other (
          inr,
          λ s. elim s [
            | inl puts ↦ absurd (cc ((same_set_iff a k _ _).1 (puts.0, puts.1), other))
            | inr before ↦ before
          ],
        )
      ])

has_pattern-put_rules :
    (a k : Bool) (p : Text) (rs : List FilterRule) (e : FilterEngine)
    → (has_pattern p (set_of a k (put_rules rs e)) ≡ true)
      ↔ (Any (Puts a k p) rs ⊎ (has_pattern p (set_of a k e) ≡ true))
unfolding put_rules
has_pattern-put_rules a k p [] e = (inr, λ s. elim s [ inl h ↦ elim h [ ] | inr h ↦ h ])
has_pattern-put_rules a k p (r ∷ rs) e =
    let (to, from) = has_pattern-put_rules a k p rs (put_rule r e) in
    let (to', from') = has_pattern-put_rule a k p r e in
    (
      λ h. elim (to h) [
        | inl later ↦ inl (there r rs later)
        | inr now ↦ elim (to' now) [ inl puts ↦ inl (here r rs puts) | inr before ↦ inr before ]
      ],
      λ s. elim s [
        | inl (here _ _ puts) ↦ from (inr (from' (inl puts)))
        | inl (there _ _ later) ↦ from (inl later)
        | inr before ↦ from (inr (from' (inr before)))
      ],
    )

pub held_by_rule :
    (a k : Bool) (rs : List FilterRule) (p : Text)
    → (has_pattern p (set_of a k (replace rs)) ≡ true) ↔ Any (Puts a k p) rs
unfolding replace new_filter_engine has_pattern
held_by_rule a k rs p =
    let (to, from) = has_pattern-put_rules a k p rs new_filter_engine in
    (
      λ h. elim (to h) [ inl puts ↦ puts | inr none_yet ↦ absurd (starts_empty a k none_yet) ],
      λ puts. from (inl puts),
    )
  where
    starts_empty : (a k : Bool) → has_pattern p (set_of a k new_filter_engine) ≡ true → ⊥
    starts_empty true true h = absurd (cc h)
    starts_empty true false h = absurd (cc h)
    starts_empty false true h = absurd (cc h)
    starts_empty false false h = absurd (cc h)
