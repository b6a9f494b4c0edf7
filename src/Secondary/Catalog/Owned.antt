-- ===== src/Secondary/Catalog/Owned.antt =====
-- The state of secondary-persistent/catalog.go: its names, its zones and their owners.
use coredns_ez.Prelude.{
  ◌+◌, ◌-◌, ◌≡◌, ◌≤◌, refl, ap, String, Bool, true, false, Option, none, some, List, [], ◌∷◌, ◌++◌,
  some_of, if-cases, count-append, arith, eq_iff, ◌==◌, text_tests, ◌&&◌, if◌then◌else◌,
}
use coredns_ez.Zonereg.{put}
use coredns_ez.Zonereg.Index.{occurs, held}
use coredns_ez.Secondary.Catalog.{
  Member, Zone, Dynamic, Engine, Start, catalog_member, remove_zone_name, remove_file, new_zone,
  list_name, replace_dynamic, migrate, remove_dynamic, take_over, apply_member, member_allowed,
  apply_members, drop_members, apply_catalog,
}

-- Each name is listed as often as it has a zone, and only a zone has an owner.
pub record Agree (e : Engine) : Type 0 where
  pub listed : (n : String) → occurs n e.names ≡ held (e.zones n)
  pub owned : (n : String) → held (e.dynamic_zones n) ≤ held (e.zones n)

occurs-remove_zone_name :
    (n name : String) (names : List String)
    → occurs n (remove_zone_name names name)
      ≡ (if name == n then occurs n names - 1 else occurs n names)
unfolding remove_zone_name
occurs-remove_zone_name n name [] = ground arith
occurs-remove_zone_name n name (m ∷ names) =
    ground (arith, occurs-remove_zone_name n name names, eq_iff m name, eq_iff m n, eq_iff name n)

pub held-put :
    {E : Type 0} (origin n : String) (o : Option E) (f : String → Option E)
    → held (put origin o f n) ≡ (if origin == n then held o else held (f n))
unfolding put
held-put origin n o f = ground arith

occurs-list_name :
    (zone n : String) (o : Option Zone) (names : List String)
    → occurs n (list_name zone o names) ≡ occurs n names + (if zone == n then 1 - held o else 0)
unfolding list_name
occurs-list_name zone n none names = ground (arith, count-append (λ m. m == n) names (zone ∷ []))
occurs-list_name zone n (some z) names = ground arith

replace_dynamic-Agree :
    (m : Member) (origin : String) (cz pz : Option Zone) (e : Engine)
    → Agree e
    → Agree (replace_dynamic m origin cz pz e).0
unfolding replace_dynamic
replace_dynamic-Agree m origin cz pz e a = record {
  listed = λ n. ground (
    arith,
    a.listed n,
    occurs-list_name m.zone n (e.zones m.zone) e.names,
    held-put m.zone n (some (new_zone e.next_number cz pz)) e.zones,
    ap (λ k. held (e.zones k)),
    eq_iff m.zone n,
  );
  owned = λ n. ground (
    arith,
    a.owned n,
    held-put m.zone n (some (new_zone e.next_number cz pz)) e.zones,
    held-put m.zone n
        (some (record {
          catalog = origin;
          member_id = m.id;
          shutdown = (new_zone e.next_number cz pz).number;
        }))
        e.dynamic_zones,
  );
}

remove_file-Agree : (zone : String) (e : Engine) → Agree e → Agree (remove_file zone e)
unfolding remove_file
remove_file-Agree zone e a = record { listed = a.listed; owned = a.owned }

if_removed-Agree :
    (b : Bool) (zone : String) (e : Engine) → Agree e → Agree (if b then remove_file zone e else e)
if_removed-Agree true zone e a = remove_file-Agree zone e a
if_removed-Agree false zone e a = a

pub remove_dynamic-Agree :
    (zone catalog : String) (e : Engine) → Agree e → Agree (remove_dynamic zone catalog e).0
unfolding remove_dynamic
remove_dynamic-Agree zone catalog e a = split (e.dynamic_zones zone) refl
  where
    gone :
        (dyn : Dynamic)
        → e.dynamic_zones zone ≡ some dyn
        → (n : String) → occurs n (remove_zone_name e.names zone) ≡ held (put zone none e.zones n)
    gone dyn q n = ground (
      arith,
      q,
      a.listed n,
      a.listed zone,
      a.owned zone,
      occurs-remove_zone_name n zone e.names,
      held-put zone n none e.zones,
      ap (λ k. occurs k e.names),
      eq_iff zone n,
    )

    unowned : (n : String) → held (put zone none e.dynamic_zones n) ≤ held (put zone none e.zones n)
    unowned n =
        ground
          (arith, a.owned n, held-put zone n none e.zones, held-put zone n none e.dynamic_zones)

    split :
        (o : Option Dynamic) → e.dynamic_zones zone ≡ o → Agree (remove_dynamic zone catalog e).0
    split none q = rw (q, remove_dynamic) a
    split (some dyn) q =
        rw (q, remove_dynamic)
          (if-cases (λ (r : Engine × Bool). Agree r.0) (dyn.catalog == catalog) _ (e, false)
            (λ _. record { listed = gone dyn q; owned = unowned }) (λ _. a))

migrate-Agree :
    (z : Zone) (dyn : Dynamic) (source target : Member) (origin : String) (cz : Option Zone)
    (e : Engine)
    → Agree e
    → Agree (migrate z dyn source target origin cz e).0
unfolding migrate
migrate-Agree z dyn source target origin cz e a =
    if-cases (λ r. Agree r.0) (dyn.member_id == source.id && source.id == target.id)
      (replace_dynamic target origin cz (some z) e)
      (replace_dynamic target origin cz none (remove_file target.zone e))
      (λ _. replace_dynamic-Agree target origin cz (some z) e a)
      (λ _.
        replace_dynamic-Agree target origin cz none (remove_file target.zone e)
          (remove_file-Agree target.zone e a))

take_over-Agree :
    (m : Member) (origin : String) (cz : Option Zone) (z : Zone) (e : Engine)
    → Agree e
    → Agree (take_over m origin cz z e).0
unfolding take_over
take_over-Agree m origin cz z e a = owner (e.dynamic_zones m.zone) refl
  where
    AgreeOf : Engine × List Start → Type 0
    AgreeOf r = Agree r.0

    moved :
        (dyn : Dynamic) (o : Option Member)
        → catalog_member (e.catalogs dyn.catalog) m.zone ≡ o
        → AgreeOf (elim o as (λ _. Engine × List Start) [
          | none ↦ (e, [])
          | some source ↦
              if source.change_of_ownership == origin
              then (let (e', start) = migrate z dyn source m origin cz e in (e', start ∷ []))
              else (e, [])
        ])
    moved dyn none q = a
    moved dyn (some source) q =
        if-cases AgreeOf (source.change_of_ownership == origin) _ (e, [])
          (λ _. migrate-Agree z dyn source m origin cz e a) (λ _. a)

    owner : (o : Option Dynamic) → e.dynamic_zones m.zone ≡ o → AgreeOf (take_over m origin cz z e)
    owner none q = rw (q, take_over) a
    owner (some dyn) q =
        rw (q, take_over)
          (if-cases AgreeOf (dyn.catalog == origin) _ _
            (λ _.
              if-cases AgreeOf (dyn.member_id == m.id) (e, []) _ (λ _. a)
                (λ _.
                  replace_dynamic-Agree m origin cz none (remove_file m.zone e)
                    (remove_file-Agree m.zone e a)))
            (λ _. moved dyn (catalog_member (e.catalogs dyn.catalog) m.zone) refl))

apply_member-Agree :
    (m : Member) (origin : String) (cz : Option Zone) (e : Engine)
    → Agree e
    → Agree (apply_member m origin cz e).0
unfolding apply_member
apply_member-Agree m origin cz e a = split (e.zones m.zone) refl
  where
    split : (o : Option Zone) → e.zones m.zone ≡ o → Agree (apply_member m origin cz e).0
    split none q = rw (q, apply_member) (replace_dynamic-Agree m origin cz none e a)
    split (some z) q = rw (q, apply_member) (take_over-Agree m origin cz z e a)

module _ (matches : List String → String → String) (origin : String) where
  apply_members-Agree :
      (cz : Option Zone) (ms : List Member) (e : Engine)
      → Agree e
      → Agree (apply_members matches origin cz ms e).0
  unfolding apply_members
  apply_members-Agree cz [] e a = a
  apply_members-Agree cz (m ∷ ms) e a =
      split (member_allowed matches e origin m.zone)
        (apply_members-Agree cz ms (apply_member m origin cz e).0
          (apply_member-Agree m origin cz e a))
        (apply_members-Agree cz ms e a)
    where
      split :
          (b : Bool)
          → Agree (apply_members matches origin cz ms (apply_member m origin cz e).0).0
          → Agree (apply_members matches origin cz ms e).0
          → Agree
              (if b
                then (let (e', starts) = apply_member m origin cz e in
                    let (e'', zones, starts') = apply_members matches origin cz ms e' in
                    (e'', m.zone ∷ zones, starts ++ starts'))
                else apply_members matches origin cz ms e).0
      split true x y = x
      split false x y = y

  drop_members-Agree :
      (kept zones : List String) (e : Engine)
      → Agree e
      → Agree (drop_members matches origin kept zones e)
  unfolding drop_members
  drop_members-Agree kept [] e a = a
  drop_members-Agree kept (zone ∷ zones) e a =
      if-cases Agree (some_of (λ k. k == zone) kept) _ _ (λ _. drop_members-Agree kept zones e a)
        (λ _. drop_members-Agree kept zones _ (
          if_removed-Agree (remove_dynamic zone origin e).1 zone (remove_dynamic zone origin e).0
            (remove_dynamic-Agree zone origin e a)))

  -- If every name is listed once exactly when it has a zone, and only zones have owners, then this
  -- is so after a catalog of any members is applied: whatever is added, reset, migrated, skipped,
  -- refused or removed.
  pub apply_catalog-Agree :
      (members : List Member) (cz : Option Zone) (e : Engine)
      → Agree e
      → Agree (apply_catalog matches origin members cz e).0
  unfolding apply_catalog
  apply_catalog-Agree members cz e a =
      let r = apply_members matches origin cz members e in
      let d =
        drop_members-Agree r.1 (r.0.catalog_member_zones origin) r.0
          (apply_members-Agree cz members e a) in
      record { listed = d.listed; owned = d.owned }
