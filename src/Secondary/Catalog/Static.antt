-- ===== src/Secondary/Catalog/Static.antt =====
-- applyCatalog (secondary-persistent/catalog.go) and the zones that are not the catalog's.
use coredns_ez.Prelude.{
  ◌≡◌, refl, ◌∙◌, ◌⊎◌, inl, inr, String, Bool, true, false, Option, none, some, List, [], ◌∷◌, ◌++◌,
  some_of, if-cases, Bool-cases, eq_iff, ◌==◌, text_tests, if◌then◌else◌,
}
use coredns_ez.Secondary.Catalog.{
  Member, Zone, Dynamic, Engine, catalog_member, remove_file, remove_dynamic, take_over,
  apply_member, member_allowed, apply_members, drop_members, apply_catalog,
}
use coredns_ez.Secondary.Catalog.Same.{
  Same, Same-refl, Same-trans, put-other, remove_file-Same, apply_member-other,
}

abbrev pub hands_over : String → Option Member → Bool
hands_over origin none = false
hands_over origin (some source) = source.change_of_ownership == origin

-- A zone from the configuration, or one of another catalog that does not hand it over to this one.
abbrev pub Foreign : String → String → Engine → Type 0
Foreign origin n e =
    (z : Zone) × (e.zones n ≡ some z)
    × ((e.dynamic_zones n ≡ none)
        ⊎ ((dyn : Dynamic) × (e.dynamic_zones n ≡ some dyn)
            × ((dyn.catalog == origin) ≡ false)
            × (hands_over origin (catalog_member (e.catalogs dyn.catalog) n) ≡ false)))

module _ (n : String) where
  take_over-static :
      (m : Member) (origin : String) (cz : Option Zone) (z : Zone) (e : Engine)
      → e.dynamic_zones m.zone ≡ none
      → take_over m origin cz z e ≡ (e, [])
  unfolding take_over
  take_over-static m origin cz z e q = rw (q, take_over) refl

  take_over-kept :
      (m : Member) (origin : String) (cz : Option Zone) (z : Zone) (e : Engine) (dyn : Dynamic)
      → e.dynamic_zones m.zone ≡ some dyn
      → (dyn.catalog == origin) ≡ false
      → hands_over origin (catalog_member (e.catalogs dyn.catalog) m.zone) ≡ false
      → take_over m origin cz z e ≡ (e, [])
  unfolding take_over
  take_over-kept m origin cz z e dyn q c h =
      split (catalog_member (e.catalogs dyn.catalog) m.zone) refl h
    where
      split :
          (o : Option Member)
          → catalog_member (e.catalogs dyn.catalog) m.zone ≡ o
          → hands_over origin o ≡ false
          → take_over m origin cz z e ≡ (e, [])
      split none k g = rw (q, c, k, take_over) refl
      split (some source) k g = rw (q, c, k, g, take_over) refl

  apply_member-taken :
      (m : Member) (origin : String) (cz : Option Zone) (z : Zone) (e : Engine)
      → e.zones m.zone ≡ some z
      → apply_member m origin cz e ≡ take_over m origin cz z e
  unfolding apply_member
  apply_member-taken m origin cz z e q = rw (q, apply_member) refl

  apply_member-kept :
      (m : Member) (origin : String) (cz : Option Zone) (e : Engine)
      → Foreign origin m.zone e
      → apply_member m origin cz e ≡ (e, [])
  apply_member-kept m origin cz e (z, q, inl d) =
      apply_member-taken m origin cz z e q ∙ take_over-static m origin cz z e d
  apply_member-kept m origin cz e (z, q, inr (dyn, d, c, h)) =
      apply_member-taken m origin cz z e q ∙ take_over-kept m origin cz z e dyn d c h

  apply_member-Same :
      (m : Member) (origin : String) (cz : Option Zone) (e : Engine)
      → Foreign origin n e
      → Same n e (apply_member m origin cz e).0
  apply_member-Same m origin cz e f = split (Bool-cases (m.zone == n))
    where
      split :
          ((m.zone == n) ≡ true) ⊎ ((m.zone == n) ≡ false) → Same n e (apply_member m origin cz e).0
      split (inl own) =
          let at : m.zone ≡ n = (eq_iff m.zone n).0 own in
          rw (apply_member-kept m origin cz e (rw at f)) (Same-refl n e)
      split (inr other) = apply_member-other n m origin cz e other

  Same-Foreign :
      (origin : String) (e e' : Engine) → Same n e e' → Foreign origin n e → Foreign origin n e'
  Same-Foreign origin e e' s (z, q, inl d) = (z, s.zones ∙ q, inl (s.dynamic_zones ∙ d))
  Same-Foreign origin e e' s (z, q, inr (dyn, d, c, h)) =
      (z, s.zones ∙ q, inr (dyn, s.dynamic_zones ∙ d, c, rw s.catalogs h))

  remove_dynamic-other :
      (zone origin : String) (e : Engine)
      → (zone == n) ≡ false
      → Same n e (remove_dynamic zone origin e).0
  unfolding remove_dynamic
  remove_dynamic-other zone origin e d = split (e.dynamic_zones zone) refl
    where
      split :
          (o : Option Dynamic)
          → e.dynamic_zones zone ≡ o
          → Same n e (remove_dynamic zone origin e).0
      split none q = rw (q, remove_dynamic) (Same-refl n e)
      split (some dyn) q =
          rw (q, remove_dynamic)
            (if-cases (λ (r : Engine × Bool). Same n e r.0) (dyn.catalog == origin) _ (e, false)
              (λ _. record {
                zones = put-other n zone none e.zones d;
                dynamic_zones = put-other n zone none e.dynamic_zones d;
                catalogs = refl;
              })
              (λ _. Same-refl n e))

  remove_dynamic-kept :
      (zone origin : String) (e : Engine)
      → Foreign origin zone e
      → (remove_dynamic zone origin e).0 ≡ e
  unfolding remove_dynamic
  remove_dynamic-kept zone origin e (z, q, inl d) = rw (d, remove_dynamic) refl
  remove_dynamic-kept zone origin e (z, q, inr (dyn, d, c, h)) = rw (d, c, remove_dynamic) refl

  remove_dynamic-Same :
      (zone origin : String) (e : Engine)
      → Foreign origin n e
      → Same n e (remove_dynamic zone origin e).0
  remove_dynamic-Same zone origin e f = split (Bool-cases (zone == n))
    where
      split :
          ((zone == n) ≡ true) ⊎ ((zone == n) ≡ false) → Same n e (remove_dynamic zone origin e).0
      split (inl own) =
          let at : zone ≡ n = (eq_iff zone n).0 own in
          rw (remove_dynamic-kept zone origin e (rw at f)) (Same-refl n e)
      split (inr other) = remove_dynamic-other zone origin e other

  if_removed-Same :
      (b : Bool) (zone : String) (e : Engine) → Same n e (if b then remove_file zone e else e)
  if_removed-Same true zone e = remove_file-Same n zone e
  if_removed-Same false zone e = Same-refl n e

module _ (matches : List String → String → String) (origin n : String) where
  apply_members-Same :
      (cz : Option Zone) (ms : List Member) (e : Engine)
      → Foreign origin n e
      → Same n e (apply_members matches origin cz ms e).0
  unfolding apply_members
  apply_members-Same cz [] e f = Same-refl n e
  apply_members-Same cz (m ∷ ms) e f =
      let one = apply_member-Same n m origin cz e f in
      split (member_allowed matches e origin m.zone)
        (Same-trans n e (apply_member m origin cz e).0
          (apply_members matches origin cz ms (apply_member m origin cz e).0).0 one
          (apply_members-Same cz ms (apply_member m origin cz e).0
            (Same-Foreign n origin e (apply_member m origin cz e).0 one f)))
        (apply_members-Same cz ms e f)
    where
      split :
          (b : Bool)
          → Same n e (apply_members matches origin cz ms (apply_member m origin cz e).0).0
          → Same n e (apply_members matches origin cz ms e).0
          → Same n e
              (if b
                then (let (e', starts) = apply_member m origin cz e in
                    let (e'', zones, starts') = apply_members matches origin cz ms e' in
                    (e'', m.zone ∷ zones, starts ++ starts'))
                else apply_members matches origin cz ms e).0
      split true x y = x
      split false x y = y

  drop_members-Same :
      (kept zones : List String) (e : Engine)
      → Foreign origin n e
      → Same n e (drop_members matches origin kept zones e)
  unfolding drop_members
  drop_members-Same kept [] e f = Same-refl n e
  drop_members-Same kept (zone ∷ zones) e f =
      let e' = (remove_dynamic zone origin e).0 in
      let removed = (remove_dynamic zone origin e).1 in
      let next : Engine = if removed then remove_file zone e' else e' in
      let one =
        Same-trans n e e' next (remove_dynamic-Same n zone origin e f)
          (if_removed-Same n removed zone e') in
      if-cases (Same n e) (some_of (λ k. k == zone) kept) (drop_members matches origin kept zones e)
        _ (λ _. drop_members-Same kept zones e f)
        (λ _.
          Same-trans n e next (drop_members matches origin kept zones next) one
            (drop_members-Same kept zones next (Same-Foreign n origin e next one f)))

  -- A zone that has no owner, because it comes from the configuration, or that another catalog owns
  -- which does not hand it over to this one, keeps its content and its owner when this catalog is
  -- applied, whatever members it lists or has listed.
  pub apply_catalog-Same :
      (members : List Member) (cz : Option Zone) (e : Engine)
      → Foreign origin n e
      → Same n e (apply_catalog matches origin members cz e).0
  unfolding apply_catalog
  apply_catalog-Same members cz e f =
      let (e', kept, starts) = apply_members matches origin cz members e in
      let first = apply_members-Same cz members e f in
      let s =
        Same-trans n e e' (drop_members matches origin kept (e'.catalog_member_zones origin) e')
          first
          (drop_members-Same kept (e'.catalog_member_zones origin) e'
            (Same-Foreign n origin e e' first f)) in
      record { zones = s.zones; dynamic_zones = s.dynamic_zones; catalogs = s.catalogs }
