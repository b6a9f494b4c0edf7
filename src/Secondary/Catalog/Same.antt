-- ===== src/Secondary/Catalog/Same.antt =====
-- The members of a catalog (secondary-persistent/catalog.go), and names that are not theirs.
use coredns_ez.Prelude.{
  ◌≡◌, refl, ◌∙◌, String, false, Option, none, some, List, [], ◌∷◌, if-cases, ◌==◌, text_tests,
  ◌&&◌, if◌then◌else◌,
}
use coredns_ez.Zonereg.{put}
use coredns_ez.Secondary.Catalog.{
  Member, Zone, Dynamic, Engine, Start, catalog_member, remove_file, replace_dynamic, migrate,
  take_over, apply_member,
}

-- A name's zone, its owner, and the catalogs are as before.
pub record Same (n : String) (e e' : Engine) : Type 0 where
  pub zones : e'.zones n ≡ e.zones n
  pub dynamic_zones : e'.dynamic_zones n ≡ e.dynamic_zones n
  pub catalogs : e'.catalogs ≡ e.catalogs

pub Same-refl : (n : String) (e : Engine) → Same n e e
Same-refl n e = record { zones = refl; dynamic_zones = refl; catalogs = refl }

pub Same-trans : (n : String) (a b c : Engine) → Same n a b → Same n b c → Same n a c
Same-trans n a b c p q = record {
  zones = q.zones ∙ p.zones;
  dynamic_zones = q.dynamic_zones ∙ p.dynamic_zones;
  catalogs = q.catalogs ∙ p.catalogs;
}

module _ (n : String) where
  pub put-other :
      {E : Type 0} (m : String) (o : E) (f : String → E) → (m == n) ≡ false → put m o f n ≡ f n
  unfolding put
  put-other m o f d = rw d refl

  pub remove_file-Same : (zone : String) (e : Engine) → Same n e (remove_file zone e)
  unfolding remove_file
  remove_file-Same zone e = record { zones = refl; dynamic_zones = refl; catalogs = refl }

  replace_dynamic-Same :
      (m : Member) (origin : String) (cz pz : Option Zone) (e : Engine)
      → (m.zone == n) ≡ false
      → Same n e (replace_dynamic m origin cz pz e).0
  unfolding replace_dynamic
  replace_dynamic-Same m origin cz pz e d = record {
    zones = put-other m.zone _ e.zones d;
    dynamic_zones = put-other m.zone _ e.dynamic_zones d;
    catalogs = refl;
  }

  reset-Same :
      (m : Member) (origin : String) (cz : Option Zone) (e : Engine)
      → (m.zone == n) ≡ false
      → Same n e (replace_dynamic m origin cz none (remove_file m.zone e)).0
  reset-Same m origin cz e d =
      Same-trans n e (remove_file m.zone e)
        (replace_dynamic m origin cz none (remove_file m.zone e)).0 (remove_file-Same m.zone e)
        (replace_dynamic-Same m origin cz none (remove_file m.zone e) d)

  migrate-Same :
      (z : Zone) (dyn : Dynamic) (source target : Member) (origin : String) (cz : Option Zone)
      (e : Engine)
      → (target.zone == n) ≡ false
      → Same n e (migrate z dyn source target origin cz e).0
  unfolding migrate
  migrate-Same z dyn source target origin cz e d =
      if-cases (λ (r : Engine × Start). Same n e r.0)
        (dyn.member_id == source.id && source.id == target.id)
        (replace_dynamic target origin cz (some z) e)
        (replace_dynamic target origin cz none (remove_file target.zone e))
        (λ _. replace_dynamic-Same target origin cz (some z) e d)
        (λ _. reset-Same target origin cz e d)

  take_over-other :
      (m : Member) (origin : String) (cz : Option Zone) (z : Zone) (e : Engine)
      → (m.zone == n) ≡ false
      → Same n e (take_over m origin cz z e).0
  unfolding take_over
  take_over-other m origin cz z e d = owner (e.dynamic_zones m.zone) refl
    where
      SameOf : Engine × List Start → Type 0
      SameOf r = Same n e r.0

      moved :
          (dyn : Dynamic) (o : Option Member)
          → SameOf (elim o as (λ _. Engine × List Start) [
            | none ↦ (e, [])
            | some source ↦
                if source.change_of_ownership == origin
                then (let (e', start) = migrate z dyn source m origin cz e in (e', start ∷ []))
                else (e, [])
          ])
      moved dyn none = Same-refl n e
      moved dyn (some source) =
          if-cases SameOf (source.change_of_ownership == origin) _ (e, [])
            (λ _. migrate-Same z dyn source m origin cz e d) (λ _. Same-refl n e)

      owner : (o : Option Dynamic) → e.dynamic_zones m.zone ≡ o → SameOf (take_over m origin cz z e)
      owner none q = rw (q, take_over) (Same-refl n e)
      owner (some dyn) q =
          rw (q, take_over)
            (if-cases SameOf (dyn.catalog == origin) _ _
              (λ _.
                if-cases SameOf (dyn.member_id == m.id) (e, []) _ (λ _. Same-refl n e)
                  (λ _. reset-Same m origin cz e d))
              (λ _. moved dyn (catalog_member (e.catalogs dyn.catalog) m.zone)))

  pub apply_member-other :
      (m : Member) (origin : String) (cz : Option Zone) (e : Engine)
      → (m.zone == n) ≡ false
      → Same n e (apply_member m origin cz e).0
  unfolding apply_member
  apply_member-other m origin cz e d = split (e.zones m.zone) refl
    where
      split : (o : Option Zone) → e.zones m.zone ≡ o → Same n e (apply_member m origin cz e).0
      split none q = rw (q, apply_member) (replace_dynamic-Same m origin cz none e d)
      split (some z) q = rw (q, apply_member) (take_over-other m origin cz z e d)
