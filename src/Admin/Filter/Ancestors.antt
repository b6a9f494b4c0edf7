-- ===== src/Admin/Filter/Ancestors.antt =====
-- The loop of the engine (admin/filtereng.go) over the parents of a name.
use coredns_ez.Prelude.{
  ℕ, zero, suc, ◌≡◌, ◌≢◌, ◌<◌, ◌↔◌, ◌⊎◌, refl, inl, inr, Bool, true, false, some, List, [], ◌∷◌,
  ◌==◌, ◌||◌, nat_tests, list_tests, list_test_iff, length, drop, length-drop, arith, leb,
  Bool-cases, if-cases, ◌&&◌,
}
use coredns_ez.JournalText.Scan.{Text}
use coredns_ez.Admin.Filter.{
  Labels, FilterEngine, has_pattern, is_none, parent_name, hit_parents, filter_hit, blocked,
}

-- the loop ends at a name that is empty or the root
abbrev pub IsName : Text → Type 0
IsName t = (t ≢ []) × (t ≢ b'.' ∷ [])

stops-IsName : (t : Text) → (t == [] || t == b'.' ∷ []) ≡ true → ¬ IsName t
stops-IsName t e (some_, other) = elim (Bool-cases (t == [])) [
  | inl is ↦ some_ ((list_test_iff t []).0 is)
  | inr filled ↦ other ((list_test_iff t (b'.' ∷ [])).0 (ground (arith, e, filled)))
]

goes-IsName : (t : Text) → (t == [] || t == b'.' ∷ []) ≡ false → IsName t
goes-IsName t e =
    let filled : (t == []) ≡ false = ground (arith, e) in
    let root : (t == b'.' ∷ []) ≡ false = ground (arith, e) in
    (
      λ p. absurd (cc ((list_test_iff t []).1 p, filled)),
      λ p. absurd (cc ((list_test_iff t (b'.' ∷ [])).1 p, root)),
    )

module _ (labels : Labels) where
  -- the ancestors of a name that a lookup comes to
  pub data Above (p : Text) : Text → Type 0 where
    parent : (n : Text) → IsName p → parent_name labels n ≡ p → Above p n
    higher : (n : Text) → IsName (parent_name labels n) → Above p (parent_name labels n) → Above p n

  parent_name-shorter : (n : Text) → n ≢ [] → length (parent_name labels n) < length n
  unfolding parent_name
  parent_name-shorter [] h = absurd (h refl)
  parent_name-shorter (c ∷ cs) h =
      let (off, end) = labels.next_label (c ∷ cs) in
      if-cases (λ t. length t < length (c ∷ cs)) (end || leb off 0 || leb (length (c ∷ cs)) off) []
        (drop off (c ∷ cs)) (λ stops. omega arith)
        (λ goes. rw (length-drop off (c ∷ cs)) (ground (arith, goes)))

  parent_name-short : (n : Text) → length (parent_name labels n) < suc (length n)
  unfolding parent_name
  parent_name-short n =
      let (off, end) = labels.next_label n in
      if-cases (λ t. length t < suc (length n)) (end || leb off 0 || leb (length n) off) []
        (drop off n) (λ stops. omega arith) (λ goes. rw (length-drop off n) (omega arith))

  -- a name, or an ancestor of it, that is in one of two maps
  abbrev pub Hits : List Text → List Text → Text → Type 0
  Hits self kids n =
      (p : Text) × Above p n × ((has_pattern p self ≡ true) ⊎ (has_pattern p kids ≡ true))

  Hits-iff :
      (self kids : List Text) (n : Text)
      → Hits self kids n ↔ (
          IsName (parent_name labels n)
          × (((has_pattern (parent_name labels n) self || has_pattern (parent_name labels n) kids)
                ≡ true)
              ⊎ Hits self kids (parent_name labels n)))
  Hits-iff self kids n = (to, from)
    where
      to :
          Hits self kids n
          → IsName (parent_name labels n)
            × (((has_pattern (parent_name labels n) self || has_pattern (parent_name labels n) kids)
                  ≡ true)
                ⊎ Hits self kids (parent_name labels n))
      to (p, parent _ named e, h) =
          rw e (named, inl (elim h [ inl h ↦ ground (arith, h) | inr h ↦ ground (arith, h) ]))
      to (p, higher _ named above, h) = (named, inr (p, above, h))

      from :
          IsName (parent_name labels n)
            × (((has_pattern (parent_name labels n) self || has_pattern (parent_name labels n) kids)
                  ≡ true)
                ⊎ Hits self kids (parent_name labels n))
          → Hits self kids n
      from (named, inl h) = (
        parent_name labels n,
        parent n named refl,
        elim (Bool-cases (has_pattern (parent_name labels n) self)) [
          | inl in_self ↦ inl in_self
          | inr out ↦ inr (ground (arith, h, out))
        ],
      )
      from (named, inr (p, above, h)) = (p, higher n named above, h)

  -- The loop has fuel enough, and says whether there is a hit above the name.
  hit_parents_iff :
      (fuel : ℕ) (self kids : List Text) (n : Text)
      → length (parent_name labels n) < fuel
      → (b : Bool) × (hit_parents labels fuel self kids (parent_name labels n) ≡ some b)
        × ((b ≡ true) ↔ Hits self kids n)
  unfolding hit_parents
  hit_parents_iff zero self kids n h = absurd (omega (arith, h))
  hit_parents_iff (suc fuel) self kids n h =
      elim (Bool-cases (parent_name labels n == [] || parent_name labels n == b'.' ∷ [])) [
        | inl stops ↦ (
          false,
          rw stops refl,
          (
            λ e. absurd (cc e),
            λ hits. absurd (stops-IsName _ stops ((Hits-iff self kids n).0 hits).0),
          ),
        )
        | inr goes ↦
            elim (Bool-cases (
              has_pattern (parent_name labels n) self || has_pattern (parent_name labels n) kids)) [
                | inl found ↦ (
                  true,
                  rw (goes, found) refl,
                  (λ e. (Hits-iff self kids n).1 (goes-IsName _ goes, inl found), λ hits. refl),
                )
                | inr missed ↦
                    let named : IsName (parent_name labels n) = goes-IsName _ goes in
                    let (b, e, (to, from)) =
                      hit_parents_iff fuel self kids (parent_name labels n)
                        (omega (arith, h, parent_name-shorter (parent_name labels n) named.0)) in
                    (
                      b,
                      rw (goes, missed) e,
                      (
                        λ t. (Hits-iff self kids n).1 (named, inr (to t)),
                        λ hits. elim ((Hits-iff self kids n).0 hits).1 [
                          | inl found ↦ absurd (cc (found, missed))
                          | inr above ↦ from above
                        ],
                      ),
                    )
              ]
      ]

  pub filter_hit_iff :
      (self kids : List Text) (n : Text)
      → (b : Bool) × (filter_hit labels self kids n ≡ some b)
        × ((b ≡ true) ↔ ((has_pattern n self ≡ true) ⊎ Hits self kids n))
  unfolding filter_hit
  filter_hit_iff self kids n = elim (Bool-cases (has_pattern n self)) [
    | inl found ↦ (true, rw found refl, (λ e. inl found, λ s. refl))
    | inr missed ↦
        let (b, e, (to, from)) =
          hit_parents_iff (suc (length n)) self kids n (parent_name-short n) in
        (
          b,
          rw missed e,
          (λ t. inr (to t), λ s. elim s [ inl h ↦ absurd (cc (h, missed)) | inr h ↦ from h ]),
        )
  ]

  -- Of every engine, however it came about, a question ends with an answer.
  pub blocked-Total :
      (e : FilterEngine) (qname : Text) → (b : Bool) × (blocked labels e qname ≡ some b)
  unfolding blocked
  blocked-Total e qname = elim (Bool-cases (is_none e.block_self && is_none e.block_kids)) [
    | inl idle ↦ (false, rw idle refl)
    | inr busy ↦
        let (a, allows, _) =
          filter_hit_iff e.allow_self e.allow_kids (labels.canonical_name qname) in
        let (b, blocks, _) =
          filter_hit_iff e.block_self e.block_kids (labels.canonical_name qname) in
        verdict a b busy allows blocks
  ]
    where
      verdict :
          (a b : Bool)
          → (is_none e.block_self && is_none e.block_kids) ≡ false
          → filter_hit labels e.allow_self e.allow_kids (labels.canonical_name qname) ≡ some a
          → filter_hit labels e.block_self e.block_kids (labels.canonical_name qname) ≡ some b
          → (c : Bool) × (blocked labels e qname ≡ some c)
      verdict true b busy allows blocks = (false, rw (busy, allows) refl)
      verdict false b busy allows blocks = (b, rw (busy, allows) blocks)
