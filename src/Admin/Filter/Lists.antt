-- ===== src/Admin/Filter/Lists.antt =====
-- parseFilterList (admin/filterparse.go): the set of names that a list of rules stands for.
use mathlib.Core.Path.{subst}
use coredns_ez.Prelude.{
  ◌≡◌, ◌↔◌, ◌⊎◌, refl, sym, ap, ◌∙◌, inl, inr, Bool, true, false, some, List, [], ◌∷◌, ◌==◌,
  nat_tests, list_tests, list_test_iff, arith, Bool-cases, Option-cases, Any, here, there,
  Any_cons_iff,
}
use coredns_ez.Prelude.Options.{some_injective}
use coredns_ez.JournalText.Scan.{Text}
use coredns_ez.Admin.Filter.{filter_block, Labels, replace, blocked}
use coredns_ez.Admin.Filter.Parse.{
  ParsedPattern, entry_of, find_seen, put_seen, see, see_line, see_lines, scanned,
  parse_filter_list, rule_of, rules_from_parsed,
}
use coredns_ez.Admin.Filter.Ancestors.{Above}
use coredns_ez.Admin.Filter.Blocked.{IsAbout, blocked_iff}

module _ (labels : Labels) (n : Text) where
  -- that a pattern is about the name
  abbrev pub Fits : ParsedPattern → Type 0
  Fits p = ((p.kids_only ≡ false) × (p.pattern ≡ n)) ⊎ Above labels p.pattern n

  -- that a line is
  abbrev pub Lists : Text → Type 0
  Lists line = (p : ParsedPattern) × (entry_of labels line ≡ some p) × Fits p

  -- a pattern gives way to one for the same name that fits where it does
  Fits-replaced :
      (p q : ParsedPattern) → q.kids_only ≡ true → q.pattern ≡ p.pattern → Fits q → Fits p
  Fits-replaced p q kids same (inl (whole, at)) = absurd (cc (kids, whole))
  Fits-replaced p q kids same (inr above) = inr (subst (λ t. Above labels t n) same above)

  Fits-kept : (p q : ParsedPattern) → q.kids_only ≡ false → q.pattern ≡ p.pattern → Fits p → Fits q
  Fits-kept p q whole same (inl (kids, at)) = inl (whole, same ∙ at)
  Fits-kept p q whole same (inr above) = inr (subst (λ t. Above labels t n) (sym same) above)

  put_seen_iff :
      (p : ParsedPattern) (qs : List ParsedPattern)
      → ((q : ParsedPattern) → find_seen p.pattern qs ≡ some q → q.kids_only ≡ true)
      → Any Fits (put_seen p qs) ↔ (Fits p ⊎ Any Fits qs)
  unfolding put_seen find_seen
  put_seen_iff p [] h = Any_cons_iff p []
  put_seen_iff p (q ∷ qs) h = elim (Bool-cases (q.pattern == p.pattern)) [
    | inl same ↦
        let at = (list_test_iff q.pattern p.pattern).0 same in
        let giving = Fits-replaced p q (h q (rw same refl)) at in
        rw same (
          λ new. elim ((Any_cons_iff p qs).0 new) [ inl f ↦ inl f | inr a ↦ inr (there q qs a) ],
          λ old. elim old [
            | inl f ↦ here p qs f
            | inr a ↦ elim ((Any_cons_iff q qs).0 a) [
              | inl g ↦ here p qs (giving g)
              | inr b ↦ there p qs b
            ]
          ],
        )
    | inr other ↦
        let (to, from) = put_seen_iff p qs (λ x e. h x (rw other e)) in
        rw other (
          λ new. elim ((Any_cons_iff q _).0 new) [
            | inl g ↦ inr (here q qs g)
            | inr a ↦ elim (to a) [ inl f ↦ inl f | inr b ↦ inr (there q qs b) ]
          ],
          λ old. elim old [
            | inl f ↦ there q _ (from (inl f))
            | inr a ↦ elim ((Any_cons_iff q qs).0 a) [
              | inl g ↦ here q _ g
              | inr b ↦ there q _ (from (inr b))
            ]
          ],
        )
  ]

  kept_whole :
      (p : ParsedPattern) (q : ParsedPattern) (qs : List ParsedPattern)
      → find_seen p.pattern qs ≡ some q
      → q.kids_only ≡ false
      → Fits p
      → Any Fits qs
  unfolding find_seen
  kept_whole p q [] e whole f = absurd (cc e)
  kept_whole p q (x ∷ qs) e whole f = elim (Bool-cases (x.pattern == p.pattern)) [
    | inl same ↦
        let is_q : x ≡ q = ground (arith, e, same) in
        here x qs (
          Fits-kept p x (ap (λ y. y.kids_only) is_q ∙ whole)
            ((list_test_iff x.pattern p.pattern).0 same) f)
    | inr other ↦ there x qs (kept_whole p q qs (ground (arith, e, other)) whole f)
  ]

  see_iff :
      (p : ParsedPattern) (qs : List ParsedPattern) → Any Fits (see p qs) ↔ (Fits p ⊎ Any Fits qs)
  unfolding see
  see_iff p qs = elim (Option-cases (find_seen p.pattern qs)) [
    | inl new ↦ rw (new, see) (put_seen_iff p qs (λ q e. absurd (cc (e, new))))
    | inr (q, known) ↦ elim (Bool-cases q.kids_only) [
      | inl kids ↦
          rw (known, kids, see)
            (put_seen_iff p qs
              (λ x e. ap (λ y. y.kids_only) (some_injective (sym e ∙ known)) ∙ kids))
      | inr whole ↦
          rw (known, whole, see)
            (inr, λ s. elim s [ inl f ↦ kept_whole p q qs known whole f | inr a ↦ a ])
    ]
  ]

  see_line_iff :
      (l : Text) (qs : List ParsedPattern)
      → Any Fits (see_line labels l qs) ↔ (Lists l ⊎ Any Fits qs)
  unfolding see_line
  see_line_iff l qs = elim (Option-cases (entry_of labels l)) [
    | inl skipped ↦
        rw (skipped, see_line) (inr, λ s. elim s [ inl (p, e, f) ↦ absurd (cc e) | inr a ↦ a ])
    | inr (p, entry) ↦
        let (to, from) = see_iff p qs in
        rw (entry, see_line)
          (
            λ a. elim (to a) [ inl f ↦ inl (p, refl, f) | inr b ↦ inr b ],
            λ s. elim s [
              | inl (q, e, f) ↦ from (inl (subst Fits (sym (some_injective e)) f))
              | inr a ↦ from (inr a)
            ],
          )
  ]

  see_lines_iff :
      (ls : List Text) (qs : List ParsedPattern)
      → Any Fits (see_lines labels ls qs) ↔ (Any Lists ls ⊎ Any Fits qs)
  unfolding see_lines
  see_lines_iff [] qs = (inr, λ s. elim s [ inl none_listed ↦ elim none_listed [ ] | inr a ↦ a ])
  see_lines_iff (l ∷ ls) qs =
      let (to, from) = see_lines_iff ls (see_line labels l qs) in
      let (to', from') = see_line_iff l qs in
      (
        λ a. elim (to a) [
          | inl later ↦ inl (there l ls later)
          | inr now ↦ elim (to' now) [ inl it ↦ inl (here l ls it) | inr before ↦ inr before ]
        ],
        λ s. elim s [
          | inl listed ↦ elim ((Any_cons_iff l ls).0 listed) [
            | inl it ↦ from (inr (from' (inl it)))
            | inr later ↦ from (inl later)
          ]
          | inr before ↦ from (inr (from' (inr before)))
        ],
      )

  rules_from_parsed_iff :
      (source : Text) (ps : List ParsedPattern)
      → Any (IsAbout labels false n) (rules_from_parsed filter_block source ps) ↔ Any Fits ps
  unfolding rules_from_parsed rule_of
  rules_from_parsed_iff source [] = (λ a. elim a [ ], λ a. elim a [ ])
  rules_from_parsed_iff source (p ∷ ps) =
      let (to, from) = rules_from_parsed_iff source ps in
      (
        λ a. elim ((Any_cons_iff _ _).0 a) [
          | inl about ↦ here p ps about.1
          | inr b ↦ there p ps (to b)
        ],
        λ a. elim ((Any_cons_iff p ps).0 a) [
          | inl f ↦ here _ _ (refl, f)
          | inr b ↦ there _ _ (from b)
        ],
      )

  blocks_only :
      (source : Text) (ps : List ParsedPattern)
      → ¬ Any (IsAbout labels true n) (rules_from_parsed filter_block source ps)
  unfolding rules_from_parsed rule_of
  blocks_only source [] a = elim a [ ]
  blocks_only source (p ∷ ps) a = elim ((Any_cons_iff _ _).0 a) [
    | inl about ↦ absurd (cc about.0)
    | inr b ↦ blocks_only source ps b
  ]

-- Whatever a block list holds, the engine that is made of it alone ends with an answer, and it is
-- yes exactly if some line of the list that the scanner gets to has a pattern that is about the
-- canonical name: that patterns are merged where lines repeat a domain loses none and adds none.
pub parse_filter_list-blocked :
    (labels : Labels) (list source qname : Text)
    → (b : Bool) × (blocked labels
          (replace (rules_from_parsed filter_block source (parse_filter_list labels list)))
          qname
        ≡ some b)
      × ((b ≡ true) ↔ Any (Lists labels (labels.canonical_name qname)) (scanned list))
unfolding parse_filter_list
parse_filter_list-blocked labels list source qname =
    let n = labels.canonical_name qname in
    let ps = parse_filter_list labels list in
    let (b, e, (to, from)) = blocked_iff labels (rules_from_parsed filter_block source ps) qname in
    let (merged, spread) = see_lines_iff labels n (scanned list) [] in
    let (of_rules, as_rules) = rules_from_parsed_iff labels n source ps in
    (
      b,
      e,
      (
        λ t. elim (merged (of_rules (to t).0)) [
          | inl listed ↦ listed
          | inr before ↦ elim before [ ]
        ],
        λ listed. from (as_rules (spread (inl listed)), blocks_only labels n source ps),
      ),
    )
