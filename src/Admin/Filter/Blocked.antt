-- ===== src/Admin/Filter/Blocked.antt =====
-- Blocked of admin/filtereng.go, and the rules that the engine was built from.
use mathlib.Core.Path.{subst}
use coredns_ez.Prelude.{
  ◌≡◌, ◌↔◌, ◌⊎◌, refl, sym, inl, inr, Bool, true, false, some, List, [], ◌∷◌, ◌==◌, nat_tests,
  list_tests, arith, Bool-cases, Any, Any_map, Any-entry, ◌&&◌,
}
use coredns_ez.JournalText.Scan.{Text}
use coredns_ez.Admin.Filter.{
  FilterRule, filter_allow, Labels, has_pattern, replace, is_none, filter_hit, blocked,
}
use coredns_ez.Admin.Filter.Maps.{set_of, held_by_rule}
use coredns_ez.Admin.Filter.Ancestors.{Above, Hits, filter_hit_iff}

module _ (labels : Labels) where
  -- whether a rule is about a name
  abbrev pub Covers : FilterRule → Text → Type 0
  Covers r n = ((r.kids_only ≡ false) × (r.pattern ≡ n)) ⊎ Above labels r.pattern n

  -- that a rule of one kind is about a name
  abbrev pub IsAbout : Bool → Text → FilterRule → Type 0
  IsAbout a n r = ((r.action == filter_allow) ≡ a) × Covers r n

  any-IsAbout :
      (a k : Bool) (rs : List FilterRule) (n p : Text)
      → Above labels p n
      → has_pattern p (set_of a k (replace rs)) ≡ true
      → Any (IsAbout a n) rs
  any-IsAbout a k rs n p above h =
      Any_map rs
        (λ r (allows, kids, same). (allows, inr (subst (λ q. Above labels q n) (sym same) above)))
        ((held_by_rule a k rs p).0 h)

  rules_iff :
      (a : Bool) (rs : List FilterRule) (n : Text)
      → ((has_pattern n (set_of a false (replace rs)) ≡ true)
          ⊎ Hits labels (set_of a false (replace rs)) (set_of a true (replace rs)) n)
        ↔ Any (IsAbout a n) rs
  rules_iff a rs n = (to, from)
    where
      to :
          ((has_pattern n (set_of a false (replace rs)) ≡ true)
            ⊎ Hits labels (set_of a false (replace rs)) (set_of a true (replace rs)) n)
          → Any (IsAbout a n) rs
      to (inl h) =
          Any_map rs (λ r (allows, kids, same). (allows, inl (kids, same)))
            ((held_by_rule a false rs n).0 h)
      to (inr (p, above, inl h)) = any-IsAbout a false rs n p above h
      to (inr (p, above, inr h)) = any-IsAbout a true rs n p above h

      hit :
          (r : FilterRule)
          → Any (λ x. x ≡ r) rs
          → IsAbout a n r
          → (has_pattern n (set_of a false (replace rs)) ≡ true)
            ⊎ Hits labels (set_of a false (replace rs)) (set_of a true (replace rs)) n
      hit r at (allows, inl (kids, same)) =
          inl ((held_by_rule a false rs n).1 (Any_map rs (λ x e. rw e (allows, kids, same)) at))
      hit r at (allows, inr above) =
          let held : has_pattern r.pattern (set_of a r.kids_only (replace rs)) ≡ true =
            (held_by_rule a r.kids_only rs r.pattern).1
              (Any_map rs (λ x e. rw e (allows, refl, refl)) at) in
          inr (
            r.pattern,
            above,
            elim (Bool-cases r.kids_only) [
              | inl kids ↦
                  inr
                    (subst (λ k. has_pattern r.pattern (set_of a k (replace rs)) ≡ true) kids held)
              | inr kids ↦
                  inl
                    (subst (λ k. has_pattern r.pattern (set_of a k (replace rs)) ≡ true) kids held)
            ],
          )

      from :
          Any (IsAbout a n) rs
          → (has_pattern n (set_of a false (replace rs)) ≡ true)
            ⊎ Hits labels (set_of a false (replace rs)) (set_of a true (replace rs)) n
      from about = let (r, is_about, at) = Any-entry rs about in hit r at is_about

  -- no map of blocked names has a key
  is_none-empty : (p : Text) (ps : List Text) → is_none ps ≡ true → has_pattern p ps ≡ true → ⊥
  unfolding is_none has_pattern
  is_none-empty p [] e h = absurd (cc h)
  is_none-empty p (q ∷ ps) e h = absurd (cc e)

  hit_by_rule :
      (a : Bool) (rs : List FilterRule) (n : Text)
      → (b : Bool) × (filter_hit labels (set_of a false (replace rs)) (set_of a true (replace rs)) n
          ≡ some b)
        × ((b ≡ true) ↔ Any (IsAbout a n) rs)
  hit_by_rule a rs n =
      let (b, at, (to, from)) =
        filter_hit_iff labels (set_of a false (replace rs)) (set_of a true (replace rs)) n in
      (b, at, (λ t. (rules_iff a rs n).0 (to t), λ about. from ((rules_iff a rs n).1 about)))

  -- Whatever the rules are and whatever name is asked for, the engine that they are compiled to
  -- ends with an answer, and it is yes exactly if some rule that is no allow rule is about the
  -- canonical name and no allow rule is: a rule is about its pattern's descendants, and unless it
  -- is for these only, about the pattern itself.
  pub blocked_iff :
      (rules : List FilterRule) (qname : Text)
      → (b : Bool) × (blocked labels (replace rules) qname ≡ some b)
        × ((b ≡ true) ↔ (
            Any (IsAbout false (labels.canonical_name qname)) rules
            × ¬ Any (IsAbout true (labels.canonical_name qname)) rules))
  unfolding blocked
  blocked_iff rules qname =
      let n = labels.canonical_name qname in
      let e = replace rules in
      elim (Bool-cases (is_none e.block_self && is_none e.block_kids)) [
        | inl idle ↦ (
          false,
          rw idle refl,
          (
            λ t. absurd (cc t),
            λ about. elim ((rules_iff false rules n).1 about.0) [
              | inl h ↦ absurd (is_none-empty n e.block_self (ground (arith, idle)) h)
              | inr (p, above, inl h) ↦
                  absurd (is_none-empty p e.block_self (ground (arith, idle)) h)
              | inr (p, above, inr h) ↦
                  absurd (is_none-empty p e.block_kids (ground (arith, idle)) h)
            ],
          ),
        )
        | inr busy ↦
            let (a, allows, allow) = hit_by_rule true rules n in
            let (b, blocks, block) = hit_by_rule false rules n in
            verdict a b busy allows blocks allow block
      ]
    where
      verdict :
          (a b : Bool)
          → (is_none (replace rules).block_self && is_none (replace rules).block_kids) ≡ false
          → filter_hit labels
              (replace rules).allow_self
              (replace rules).allow_kids
              (labels.canonical_name qname)
            ≡ some a
          → filter_hit labels
              (replace rules).block_self
              (replace rules).block_kids
              (labels.canonical_name qname)
            ≡ some b
          → (a ≡ true) ↔ Any (IsAbout true (labels.canonical_name qname)) rules
          → (b ≡ true) ↔ Any (IsAbout false (labels.canonical_name qname)) rules
          → (c : Bool) × (blocked labels (replace rules) qname ≡ some c)
            × ((c ≡ true) ↔ (
                Any (IsAbout false (labels.canonical_name qname)) rules
                × ¬ Any (IsAbout true (labels.canonical_name qname)) rules))
      verdict true b busy allows blocks allow block = (
        false,
        rw (busy, allows) refl,
        (λ t. absurd (cc t), λ about. absurd (about.1 (allow.0 refl))),
      )
      verdict false b busy allows blocks allow block = (
        b,
        rw (busy, allows) blocks,
        (
          λ t. (block.0 t, λ some_allow. absurd (cc (allow.1 some_allow))),
          λ about. block.1 about.0,
        ),
      )
