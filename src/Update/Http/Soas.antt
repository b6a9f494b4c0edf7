-- ===== src/Update/Http/Soas.antt =====
-- httpUpdatesLocked (dns-update-persistent/apply.go): what is asked for the SOA of the apex.
use coredns_ez.Prelude.{
  ◌≡◌, ◌<◌, refl, sym, ap, String, Bool, true, false, not, some, List, [], ◌∷◌, ◌++◌, map, ok,
  bind_ok, value_or, All, All-append, All-keep, All-kept, All-image, All-map, keep, arith,
  nat_tests, text_tests,
}
use coredns_ez.Dns.{
  Header, Soa, Rr, soa, other, header, soa_of, type_ns, type_soa, class_inet, Dns, canonical,
  with_header,
}
use coredns_ez.Dns.Serial.{u32_mod}
use coredns_ez.Update.Zone.{rrset_of, is_of}
use coredns_ez.Update.Commit.{UpdatePersist}
use coredns_ez.Update.Http.{
  is_apex_type, is_elsewhere, soa_updates, ns_updates, http_updates, deletion_of, copy_in,
  copy_delete, is_class_any, is_missing,
}
use coredns_ez.Update.Http.Replace.{IsNewer, newer_soas-IsNewer}

module _ ⦃dns : Dns⦄ where
  -- no SOA of the apex but a newer one
  abbrev pub NewerIfSoa : String → Soa → Rr → Type 0
  NewerIfSoa zone cur rr = is_apex_type zone type_soa rr ≡ true → IsNewer cur rr

  elsewhere-Newer :
      (zone : String) (cur : Soa) (rr : Rr) → is_elsewhere zone rr ≡ true → NewerIfSoa zone cur rr
  unfolding is_elsewhere
  elsewhere-Newer zone cur rr e q = ground (arith, e, q)

  ns-Newer :
      (zone : String) (cur : Soa) (rr : Rr) → (header rr).rrtype ≡ type_ns → NewerIfSoa zone cur rr
  unfolding is_apex_type
  ns-Newer zone cur rr e q = ground (arith, e, q)

  apex_ns-type :
      (zone : String) (rr : Rr) → is_apex_type zone type_ns rr ≡ true → (header rr).rrtype ≡ type_ns
  unfolding is_apex_type
  apex_ns-type zone rr e = ground (arith, e)

  deletion_of-type : (rr : Rr) → (header (deletion_of rr)).rrtype ≡ (header rr).rrtype
  unfolding deletion_of with_header header
  deletion_of-type (soa h s) = refl
  deletion_of-type (other h d) = refl

  soa_updates-Newer :
      (d : UpdatePersist) (wipe : Bool) (soa_adds out : List Rr) (g : Header) (cur : Soa)
      → soa_of d.rrs ≡ some (g, cur)
      → cur.serial < u32_mod
      → All (λ x. (header x).class ≡ class_inet) soa_adds
      → soa_updates d wipe soa_adds ≡ ok out
      → All (IsNewer cur) out
  unfolding soa_updates
  soa_updates-Newer d true [] out g cur q small inet e = ground (arith, e)
  soa_updates-Newer d false [] out g cur q small inet e = rw (sym (ap (value_or []) e)) tt
  soa_updates-Newer d wipe (rr ∷ soa_adds) out g cur q small inet e =
      newer_soas-IsNewer cur (rr ∷ soa_adds) out small inet (ground (arith, e, q))

  copy_in-class : (rrs : List Rr) → All (λ x. (header x).class ≡ class_inet) (map copy_in rrs)
  unfolding copy_in with_header header
  copy_in-class [] = tt
  copy_in-class (soa h s ∷ rrs) = (refl, copy_in-class rrs)
  copy_in-class (other h d ∷ rrs) = (refl, copy_in-class rrs)

  rrset-types :
      (rrs : List Rr) (zone : String)
      → All (λ x. (header x).rrtype ≡ type_ns) (rrset_of rrs zone type_ns)
  unfolding rrset_of is_of
  rrset-types rrs zone =
      All-map (keep (is_of (canonical zone) type_ns) rrs) (λ x e. ground (arith, e))
        (All-kept (is_of (canonical zone) type_ns) rrs)

  ns_updates-types :
      (d : UpdatePersist) (wipe : Bool) (ns_adds ns_dels out : List Rr)
      → All (λ x. (header x).rrtype ≡ type_ns) ns_dels
      → ns_updates d wipe ns_adds ns_dels ≡ ok out
      → All (λ x. (header x).rrtype ≡ type_ns) out
  unfolding ns_updates
  ns_updates-types d false ns_adds ns_dels out a e = rw (sym (ap (value_or []) e)) a
  ns_updates-types d true [] ns_dels out a e = ground (arith, e)
  ns_updates-types d true (rr ∷ ns_adds) ns_dels out a e = rw (sym (ap (value_or []) e)) (
      All-image (λ x. (header x).rrtype ≡ type_ns) deletion_of
        (keep (is_missing (rr ∷ ns_adds)) (rrset_of d.rrs d.zone type_ns))
        (All-map (keep (is_missing (rr ∷ ns_adds)) (rrset_of d.rrs d.zone type_ns))
          (λ x t. rw (deletion_of-type x) t)
          (All-keep (λ x. (header x).rrtype ≡ type_ns) (is_missing (rr ∷ ns_adds))
            (rrset_of d.rrs d.zone type_ns) (rrset-types d.rrs d.zone))))

  elsewhere-AllNewer :
      (zone : String) (cur : Soa) (xs : List Rr)
      → All (NewerIfSoa zone cur) (keep (is_elsewhere zone) xs)
  elsewhere-AllNewer zone cur xs =
      All-map (keep (is_elsewhere zone) xs) (elsewhere-Newer zone cur)
        (All-kept (is_elsewhere zone) xs)

  apex_ns-types :
      (zone : String) (xs : List Rr)
      → All (λ x. (header x).rrtype ≡ type_ns) (keep (is_apex_type zone type_ns) xs)
  apex_ns-types zone xs =
      All-map (keep (is_apex_type zone type_ns) xs) (apex_ns-type zone)
        (All-kept (is_apex_type zone type_ns) xs)

  -- The four parts of the updates: what is not at the apex, its SOAs, and its NS records, which are
  -- added and deleted.
  joined-Newer :
      (zone : String) (cur : Soa) (dels ins soas nss : List Rr)
      → All (IsNewer cur) soas
      → All (λ x. (header x).rrtype ≡ type_ns) nss
      → All (NewerIfSoa zone cur) (
          keep (is_elsewhere zone) dels
          ++ keep (is_elsewhere zone) ins
          ++ soas
          ++ keep (is_apex_type zone type_ns) ins
          ++ nss)
  joined-Newer zone cur dels ins soas nss a b =
      let Newer = NewerIfSoa zone cur in
      let others =
        All-append Newer (keep (is_elsewhere zone) dels) (keep (is_elsewhere zone) ins)
          (elsewhere-AllNewer zone cur dels) (elsewhere-AllNewer zone cur ins) in
      let with_soas = All-append Newer _ soas others (All-map soas (λ x n _. n) a) in
      let ns_adds = keep (is_apex_type zone type_ns) ins in
      let with_ns =
        All-append Newer _ ns_adds with_soas
          (All-map ns_adds (ns-Newer zone cur) (apex_ns-types zone ins)) in
      All-append Newer _ nss with_ns (All-map nss (ns-Newer zone cur) b)

  -- If the zone has an SOA with a serial of 32 bits, then of the updates that a change over HTTP is
  -- turned into, every one whose type is SOA and whose name is the apex is an SOA of class IN,
  -- hence an addition and no deletion, and its serial is newer than the zone's.
  pub http_updates-Newer :
      (d : UpdatePersist) (adds deletes updates : List Rr) (g : Header) (cur : Soa)
      → soa_of d.rrs ≡ some (g, cur)
      → cur.serial < u32_mod
      → http_updates d adds deletes ≡ ok updates
      → All (NewerIfSoa d.zone cur) updates
  unfolding http_updates
  http_updates-Newer d adds deletes updates g cur q small e =
      let ins = map copy_in adds in
      let dels = map copy_delete deletes in
      let apex_soas = keep (is_apex_type d.zone type_soa) ins in
      let ns_dels = keep (is_apex_type d.zone type_ns) dels in
      let (soas, soas_ok, rest) = bind_ok (soa_updates d _ apex_soas) _ updates e in
      let (nss, nss_ok, last) = bind_ok (ns_updates d _ _ _) _ updates rest in
      rw (sym (ap (value_or []) last)) (
        joined-Newer d.zone cur dels ins soas nss
          (soa_updates-Newer d _ apex_soas soas g cur q small
            (All-keep _ (is_apex_type d.zone type_soa) ins (copy_in-class adds)) soas_ok)
          (ns_updates-types d _ _ _ nss
            (All-keep _ (λ rr. not (is_class_any rr)) ns_dels (apex_ns-types d.zone dels)) nss_ok))
