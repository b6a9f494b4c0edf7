-- ===== src/Update/Prescan.antt =====
-- prescan of dns-update-persistent/update.go (RFC 2136 section 3.4.1).
use coredns_ez.Prelude.{
  ℕ, String, Bool, true, false, not, Option, none, some, List, [], ◌∷◌, ◌==◌, nat_tests, ◌&&◌, ◌||◌,
  if◌then◌else◌,
}
use coredns_ez.Dns.{
  Rr, header, type_any, class_any, class_none, class_inet, Rcode, success, format_error, refused,
  not_zone, Dns,
}
use coredns_ez.Update.Zone.{in_zone, is_meta_type}

-- the type policy: the map `mutable`, if there is one, for wire updates
unfoldable pub allowed : Option (ℕ → Bool) → Bool → ℕ → Bool
allowed none enforce rrtype = true
allowed (some policy) enforce rrtype = not enforce || rrtype == type_any || policy rrtype

module _ ⦃dns : Dns⦄ (zone : String) (mutable : Option (ℕ → Bool)) (enforce : Bool) where
  -- the switch over the class: whether it falls through
  unfoldable pub class_fits : Rr → Bool
  class_fits rr =
      let h = header rr in
      if h.class == class_inet
      then not (h.rrtype == type_any)
      else if h.class == class_any
      then h.ttl == 0 && h.rdlength == 0
      else if h.class == class_none
      then h.ttl == 0 && not (h.rrtype == type_any)
      else false

  unfoldable pub prescan_rr : Rr → Rcode
  unfolding class_fits
  prescan_rr rr =
      let h = header rr in
      if not (in_zone zone h.name)
      then not_zone
      else if is_meta_type h.rrtype && not (h.class == class_any && h.rrtype == type_any)
      then format_error
      else if not (class_fits rr)
      then format_error
      else if allowed mutable enforce h.rrtype
      then success
      else refused

  unfoldable pub prescan : List Rr → Rcode
  prescan [] = success
  prescan (rr ∷ updates) = elim (prescan_rr rr) [ success ↦ prescan updates | other ↦ other ]
