-- ===== src/Secondary/Origins/Agreement.antt =====
-- StartOrigin and StopOrigin (secondary-persistent/runtime.go): names, zones and owners.
use coredns_ez.Prelude.{
  ◌≡◌, refl, ap, String, Option, none, some, List, [], ◌∷◌, if-cases, count-append, arith, eq_iff,
  ◌==◌, text_tests,
}
use coredns_ez.Dns.{Dns, canonical}
use coredns_ez.Zonereg.{put}
use coredns_ez.Zonereg.Index.{held}
use coredns_ez.Secondary.Catalog.{Zone, Engine, remove_dynamic}
use coredns_ez.Secondary.Catalog.Owned.{Agree, held-put, remove_dynamic-Agree}
use coredns_ez.Secondary.Origins.{
  admin_catalog, OriginError, fresh_zone, install_origin, start_origin, stop_origin,
  set_transfer_from,
}

install_origin-Agree :
    (origin : String) (from : List String) (e : Engine)
    → e.zones origin ≡ none
    → Agree e
    → Agree (install_origin origin from e)
unfolding install_origin
install_origin-Agree origin from e free a = record {
  listed = λ n. ground (
    arith,
    a.listed n,
    free,
    count-append (λ m. m == n) e.names (origin ∷ []),
    held-put origin n (some (fresh_zone from e.next_number)) e.zones,
    ap (λ k. held (e.zones k)),
    eq_iff origin n,
  );
  owned = λ n. ground (
    arith,
    a.owned n,
    held-put origin n (some (fresh_zone from e.next_number)) e.zones,
    held-put origin n
        (some (record { catalog = admin_catalog; member_id = origin; shutdown = e.next_number }))
        e.dynamic_zones,
  );
}

module _ ⦃dns : Dns⦄ where
  start_origin-Agree :
      (name : String) (from : List String) (e : Engine)
      → Agree e
      → Agree (start_origin name from e).0
  unfolding start_origin
  start_origin-Agree name [] e a = a
  start_origin-Agree name (m ∷ from) e a = split (e.zones (canonical name)) refl
    where
      split :
          (o : Option Zone)
          → e.zones (canonical name) ≡ o
          → Agree (start_origin name (m ∷ from) e).0
      split (some z) q = rw (q, start_origin) a
      split none q = rw (q, start_origin) (install_origin-Agree (canonical name) (m ∷ from) e q a)

  stop_origin-Agree : (name : String) (e : Engine) → Agree e → Agree (stop_origin name e).0
  unfolding stop_origin
  stop_origin-Agree name e a =
      if-cases (λ (r : Engine × Option OriginError). Agree r.0)
        (remove_dynamic (canonical name) admin_catalog e).1 _ _
        (λ _. remove_dynamic-Agree (canonical name) admin_catalog e a)
        (λ _. remove_dynamic-Agree (canonical name) admin_catalog e a)

  moved-Agree :
      (origin : String) (z z' : Zone) (e : Engine)
      → e.zones origin ≡ some z
      → Agree e
      → Agree (record e { zones = put origin (some z') e.zones })
  moved-Agree origin z z' e q a = record {
    listed = λ n. ground (
      arith,
      a.listed n,
      q,
      held-put origin n (some z') e.zones,
      ap (λ k. held (e.zones k)),
      eq_iff origin n,
    );
    owned = λ n. ground (
      arith,
      a.owned n,
      q,
      held-put origin n (some z') e.zones,
      ap (λ k. held (e.zones k)),
      eq_iff origin n,
    );
  }

  set_transfer_from-Agree :
      (name : String) (from : List String) (e : Engine)
      → Agree e
      → Agree (set_transfer_from name from e)
  unfolding set_transfer_from
  set_transfer_from-Agree name [] e a = a
  set_transfer_from-Agree name (m ∷ from) e a = split (e.zones (canonical name)) refl
    where
      split :
          (o : Option Zone)
          → e.zones (canonical name) ≡ o
          → Agree (set_transfer_from name (m ∷ from) e)
      split none q = rw (q, set_transfer_from) a
      split (some z) q =
          rw (q, set_transfer_from)
            (moved-Agree (canonical name) z (record z { transfer_from = m ∷ from }) e q a)

  -- If names, zones and owners of a secondary agree, they still do after the API starts a zone,
  -- stops one, or gives one other masters, whether or not that is refused.
  pub origins-Agree :
      (name : String) (from : List String) (e : Engine)
      → Agree e
      → Agree (start_origin name from e).0
        × Agree (stop_origin name e).0
        × Agree (set_transfer_from name from e)
  origins-Agree name from e a = (
    start_origin-Agree name from e a,
    stop_origin-Agree name e a,
    set_transfer_from-Agree name from e a,
  )
