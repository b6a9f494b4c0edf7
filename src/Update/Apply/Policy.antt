-- ===== src/Update/Apply/Policy.antt =====
-- What the type policy of a zone lets through to apply.
use coredns_ez.Prelude.{
  ℕ, ◌≡◌, ◌≢◌, refl, ap, ◌∙◌, ◌⊎◌, String, Bool, true, false, not, Option, List, [], ◌∷◌, All, keep,
  some_of, arith, eq_iff, nat_tests, text_tests,
}
use coredns_ez.Dns.{
  Rr, header, type_any, class_inet, class_any, class_none, success, Dns, canonical,
}
use coredns_ez.Update.Zone.{in_zone, is_meta_type, same_name, delete_where}
use coredns_ez.Update.Prescan.{allowed, prescan, prescan_rr, class_fits}
use coredns_ez.Update.Apply.{wiped, apply_wipe, apply_rr, apply_from, apply}

module _ ⦃dns : Dns⦄ (zone : String) (policy : Option (ℕ → Bool)) where
  -- A record of the zone, of a class that an update may have, whose type the policy names; or a
  -- deletion of all there is at a name.
  abbrev pub Scanned : Rr → Type 0
  Scanned rr =
      let h = header rr in
      (in_zone zone h.name ≡ true)
      × ((h.class ≡ class_inet) ⊎ ((h.class ≡ class_any) ⊎ (h.class ≡ class_none)))
      × ((h.class ≢ class_inet) ⊎ (h.rrtype ≢ type_any))
      × ((h.class ≡ class_inet) ⊎ (h.ttl ≡ 0))
      × ((allowed policy true h.rrtype ≡ true) × ((h.rrtype ≢ type_any) ⊎ (h.class ≡ class_any)))

  prescan_rr-Scanned : (rr : Rr) → prescan_rr zone policy true rr ≡ success → Scanned rr
  unfolding prescan_rr class_fits is_meta_type
  prescan_rr-Scanned rr e = ground (arith, e)

  -- If the prescan of an update section passes, then every record of it is in the zone, is of class
  -- IN, ANY or NONE, has no TTL unless it is added, and is of a type that the policy allows or of
  -- type ANY, which only a deletion of class ANY may have.
  pub prescan-Scanned :
      (updates : List Rr) → prescan zone policy true updates ≡ success → All Scanned updates
  unfolding prescan
  prescan-Scanned [] e = tt
  prescan-Scanned (rr ∷ updates) e =
      (prescan_rr-Scanned rr (ground (arith, e)), prescan-Scanned updates (ground (arith, e)))

  wiped-gone :
      (name : String) (rrs : List Rr)
      → name ≢ zone
      → some_of (λ x. same_name x name) (keep (λ x. not (wiped zone name x)) rrs) ≡ false
  unfolding wiped
  wiped-gone name [] n = refl
  wiped-gone name (x ∷ rrs) n = ground (arith, n, eq_iff name zone, wiped-gone name rrs n)

  apply_rr-wipe :
      (rr : Rr) (rrs : List Rr)
      → (header rr).class ≡ class_any
      → (header rr).rrtype ≡ type_any
      → (apply_rr zone rr (rrs, false)).0
        ≡ keep (λ x. not (wiped zone (canonical (header rr).name) x)) rrs
  unfolding apply_rr apply_wipe delete_where
  apply_rr-wipe rr rrs cl ty = ground (arith, cl, ty)

  passes :
      (rr : Rr)
      → in_zone zone (header rr).name ≡ true
      → (header rr).class ≡ class_any
      → (header rr).rrtype ≡ type_any
      → (header rr).ttl ≡ 0
      → (header rr).rdlength ≡ 0
      → prescan_rr zone policy true rr ≡ success
  unfolding prescan_rr class_fits is_meta_type allowed
  passes rr inside cl ty ttl rd = ground (arith, inside, cl, ty, ttl, rd, policy)

  -- Under every policy, one that allows no type at all included, a deletion of class ANY and type
  -- ANY at a name of the zone that is not its apex passes the prescan, and after it the name owns
  -- no record of any type.
  pub wipe_passes_policy :
      (rr : Rr) (rrs : List Rr)
      → in_zone zone (header rr).name ≡ true
      → canonical (header rr).name ≢ zone
      → (header rr).class ≡ class_any
      → (header rr).rrtype ≡ type_any
      → (header rr).ttl ≡ 0
      → (header rr).rdlength ≡ 0
      → (prescan zone policy true (rr ∷ []) ≡ success)
        × (some_of (λ x. same_name x (canonical (header rr).name)) (apply zone rrs (rr ∷ [])).0
            ≡ false)
  unfolding prescan apply apply_from
  wipe_passes_policy rr rrs inside away cl ty ttl rd = (
    rw (passes rr inside cl ty ttl rd, prescan) refl,
    ap (some_of (λ x. same_name x (canonical (header rr).name))) (apply_rr-wipe rr rrs cl ty)
        ∙ wiped-gone (canonical (header rr).name) rrs away,
  )
