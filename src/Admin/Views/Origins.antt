-- ===== src/Admin/Views/Origins.antt =====
-- matchMap (admin/admin.go) and the order of the entries of its map.
use mathlib.Core.Path.{subst}
use coredns_ez.Prelude.{
  if-cases, ◌≡◌, ◌≤◌, ◌↔◌, ◌⊎◌, refl, sym, ap, ◌∙◌, inl, inr, String, true, List, [], ◌∷◌, ◌&&◌,
  ltb, arith, text_tests, Any, here, there, if◌then◌else◌,
}
use coredns_ez.Dns.{Dns}
use coredns_ez.Admin.Views.{size, covers, longest, keys_of, match_map}

empty_by_size : (s : String) → size s ≡ 0 → s ≡ ""
empty_by_size String.[] e = refl
empty_by_size (String.◌∷◌ c s) e = absurd (omega (arith, e))

module _ ⦃dns : Dns⦄ (qname : String) where
  abbrev IsKey : String → List String → Type 0
  IsKey x ks = Any (λ y. y ≡ x) ks

  -- what the loop has found: the start, or a key that covers the name
  abbrev IsFound : String → String → List String → Type 0
  IsFound best o ks = (o ≡ best) ⊎ (IsKey o ks × (covers o qname ≡ true))

  -- one round of the loop
  abbrev better : String → String → String
  better best x = if covers x qname && ltb (size best) (size x) then x else best

  better-start : (best x : String) → size best ≤ size (better best x)
  better-start best x =
      if-cases (λ o. size best ≤ size o) (covers x qname && ltb (size best) (size x)) x best
        (λ h. ground (arith, h)) (λ _. omega arith)

  better-key : (best x : String) → covers x qname ≡ true → size x ≤ size (better best x)
  better-key best x c =
      if-cases (λ o. size x ≤ size o) (covers x qname && ltb (size best) (size x)) x best
        (λ _. omega arith) (λ h. ground (arith, h, c))

  better-found :
      (best x : String) → (better best x ≡ best) ⊎ ((better best x ≡ x) × (covers x qname ≡ true))
  better-found best x =
      if-cases (λ o. (o ≡ best) ⊎ ((o ≡ x) × (covers x qname ≡ true)))
        (covers x qname && ltb (size best) (size x)) x best (λ h. inr (refl, ground (arith, h)))
        (λ _. inl refl)

  longest-IsFound : (ks : List String) (best : String) → IsFound best (longest qname ks best) ks
  unfolding longest
  longest-IsFound [] best = inl refl
  longest-IsFound (k ∷ ks) best = elim (longest-IsFound ks (better best k)) [
    | inl same ↦ elim (better-found best k) [
      | inl before ↦ inl (same ∙ before)
      | inr (new, c) ↦
          inr
            (here k ks (sym (same ∙ new)), subst (λ x. covers x qname ≡ true) (sym (same ∙ new)) c)
    ]
    | inr (at, c) ↦ inr (there k ks at, c)
  ]

  longest-start : (ks : List String) (best : String) → size best ≤ size (longest qname ks best)
  unfolding longest
  longest-start [] best = omega arith
  longest-start (k ∷ ks) best = omega (arith, better-start best k, longest-start ks (better best k))

  longest-longest :
      (ks : List String) (best x : String)
      → IsKey x ks
      → covers x qname ≡ true
      → size x ≤ size (longest qname ks best)
  unfolding longest
  longest-longest [] best x at c = elim at [ ]
  longest-longest (k ∷ ks) best x (here _ _ same) c = omega (
    arith,
    ap size same,
    better-key best k (subst (λ y. covers y qname ≡ true) (sym same) c),
    longest-start ks (better best k),
  )
  longest-longest (k ∷ ks) best x (there _ _ at) c = longest-longest ks (better best k) x at c

  -- the origins of a map that cover the name, which are some of its parents, differ in their
  -- lengths
  abbrev pub Apart : List String → Type 0
  Apart ks =
      (x y : String)
      → IsKey x ks
      → IsKey y ks
      → covers x qname ≡ true
      → covers y qname ≡ true
      → size x ≡ size y
      → x ≡ y

  -- Two maps with the same keys, in whatever orders Go goes through them, give the same origin for
  -- a name, if no two of their keys that the name is in have one length.
  pub match_map_order :
      {A B : Type 0} (m : List (String × A)) (m' : List (String × B))
      → ((x : String) → IsKey x (keys_of m) ↔ IsKey x (keys_of m'))
      → Apart (keys_of m)
      → match_map m qname ≡ match_map m' qname
  unfolding match_map
  match_map_order m m' same apart =
      decide (longest-IsFound (keys_of m) "") (longest-IsFound (keys_of m') "")
    where
      decide :
          IsFound "" (longest qname (keys_of m) "") (keys_of m)
          → IsFound "" (longest qname (keys_of m') "") (keys_of m')
          → longest qname (keys_of m) "" ≡ longest qname (keys_of m') ""
      decide (inl e) (inl e') = e ∙ sym e'
      decide (inl e) (inr (at, c)) =
          e
          ∙ sym (
              empty_by_size _
                (omega (arith, ap size e, longest-longest (keys_of m) "" _ ((same _).1 at) c)))
      decide (inr (at, c)) (inl e) =
          empty_by_size _
            (omega (arith, ap size e, longest-longest (keys_of m') "" _ ((same _).0 at) c))
          ∙ sym e
      decide (inr (at, c)) (inr (at', c')) = apart _ _ at ((same _).1 at') c c' (
          omega (
            arith,
            longest-longest (keys_of m') "" _ ((same _).0 at) c,
            longest-longest (keys_of m) "" _ ((same _).1 at') c',
          ))
