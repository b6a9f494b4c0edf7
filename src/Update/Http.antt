-- ===== src/Update/Http.antt =====
-- apply.go and construct.go of dns-update-persistent: the changes that come from the HTTP API, and
-- how an instance is made from records.
pub mod Replace
pub mod Soas
use coredns_ez.Prelude.{
  ℕ, ◌+◌, ◌%◌, String, Bool, true, false, not, Option, none, some, List, [], ◌∷◌, ◌++◌, map, Result,
  ok, err, length, keep, some_of, ◌>>=◌, ◌==◌, nat_tests, text_tests, ◌&&◌, if◌then◌else◌,
}
use coredns_ez.Dns.{
  Header, Soa, Rr, soa, other, header, with_header, soa_of, type_ns, type_soa, class_inet,
  class_any, class_none, Rcode, success, Dns, canonical,
}
use coredns_ez.Dns.Serial.{u32_mod, serial_greater}
use coredns_ez.Ixfr
use coredns_ez.Ixfr.{Ixfr, IxfrError}
use coredns_ez.Update.Zone.{index_of_rr, rrset_of}
use coredns_ez.Update.Prescan.{prescan}
use coredns_ez.Update.Commit.{
  UpdatePersist, Config, Ending, returned, panicked, swap, commit_locked,
}

pub data HttpError : Type 0 where
  no_soa_delete no_soa invalid_soa no_ns_delete : HttpError
  rcode_error : Rcode → HttpError

-- what Apply returns for an rcode
unfoldable pub error_of : Rcode → Option HttpError
error_of success = none
error_of rcode = some (rcode_error rcode)

unfoldable pub error_at : Ending Rcode → Ending (Option HttpError)
unfolding error_of
error_at (returned rcode) = returned (error_of rcode)
error_at panicked = panicked

-- copyIN
unfoldable pub copy_in : Rr → Rr
copy_in rr = with_header (record (header rr) { class = class_inet }) rr

unfoldable pub copy_delete : Rr → Rr
copy_delete rr =
    if (header rr).class == class_none then with_header (record (header rr) { ttl = 0 }) rr else rr

-- a current NS record as a deletion of it
unfoldable pub deletion_of : Rr → Rr
deletion_of rr = with_header (record (header rr) { class = class_none; ttl = 0 }) rr

unfoldable pub is_class_any : Rr → Bool
is_class_any rr = (header rr).class == class_any

-- the loop over the SOAs that are added: a serial that is not newer becomes the one after the
-- current
unfoldable pub newer_soas : Soa → List Rr → Result HttpError (List Rr)
newer_soas cur [] = ok []
newer_soas cur (other h d ∷ rrs) = err invalid_soa
newer_soas cur (soa h s ∷ rrs) = newer_soas cur rrs >>= λ rest. ok (
    (if serial_greater s.serial cur.serial
      then soa h s
      else soa h (record s { serial = (cur.serial + 1) % u32_mod }))
    ∷ rest)

module _ ⦃dns : Dns⦄ where
  unfoldable pub is_apex_type : String → ℕ → Rr → Bool
  is_apex_type zone t rr = (header rr).rrtype == t && canonical (header rr).name == canonical zone

  -- the first switch's third case, and the second one's
  unfoldable pub is_elsewhere : String → Rr → Bool
  is_elsewhere zone rr = not (is_apex_type zone type_ns rr) && not (is_apex_type zone type_soa rr)

  unfoldable pub soa_updates : UpdatePersist → Bool → List Rr → Result HttpError (List Rr)
  soa_updates d wipe_soa [] = if wipe_soa then err no_soa_delete else ok []
  soa_updates d wipe_soa (rr ∷ soa_adds) = elim (soa_of d.rrs) [
    | none ↦ err no_soa
    | some (h, cur) ↦ newer_soas cur (rr ∷ soa_adds)
  ]

  unfoldable pub is_missing : List Rr → Rr → Bool
  is_missing rrs rr = elim (index_of_rr rrs rr) [ none ↦ true | some i ↦ false ]

  -- the deletions of NS records at the apex: those asked for, or those that replace the set
  unfoldable pub ns_updates : UpdatePersist → Bool → List Rr → List Rr → Result HttpError (List Rr)
  ns_updates d false ns_adds ns_dels = ok ns_dels
  ns_updates d true [] ns_dels = err no_ns_delete
  ns_updates d true (rr ∷ ns_adds) ns_dels =
      ok (map deletion_of (keep (is_missing (rr ∷ ns_adds)) (rrset_of d.rrs d.zone type_ns)))

  -- Adds of NS records come before their deletions, so that the last one can be replaced.
  unfoldable pub http_updates : UpdatePersist → List Rr → List Rr → Result HttpError (List Rr)
  http_updates d adds deletes =
      let ins = map copy_in adds in
      let dels = map copy_delete deletes in
      let ns_adds = keep (is_apex_type d.zone type_ns) ins in
      let soa_adds = keep (is_apex_type d.zone type_soa) ins in
      let other_adds = keep (is_elsewhere d.zone) ins in
      let apex_ns = keep (is_apex_type d.zone type_ns) dels in
      let early = keep (is_elsewhere d.zone) dels in
      let wipe_soa = some_of is_class_any (keep (is_apex_type d.zone type_soa) dels) in
      let wipe_ns = some_of is_class_any apex_ns in
      let ns_dels = keep (λ rr. not (is_class_any rr)) apex_ns in
      soa_updates d wipe_soa soa_adds >>= λ soas. ns_updates d wipe_ns ns_adds ns_dels >>= λ nss.
      ok (early ++ other_adds ++ soas ++ ns_adds ++ nss)

  module _ {S : Type 0} (c : Config S) where
    -- Apply: the type policy is not enforced. A panic of the commit is one of Apply.
    unfoldable pub http_apply :
        UpdatePersist → List Rr → List Rr → S → Ending (Option HttpError) × UpdatePersist × S
    http_apply d adds deletes s = elim (http_updates d adds deletes) [
      | err e ↦ (returned (some e), d, s)
      | ok updates ↦ elim (prescan d.zone d.mutable false updates) [
        | success ↦ let (ending, d', s') = commit_locked c d updates s in (error_at ending, d', s')
        | rcode ↦ (returned (some (rcode_error rcode)), d, s)
      ]
    ]

    -- NewFromRecords, with the counter of internal/cachegen as an argument
    unfoldable pub new_from_records :
        String → List Rr → Option (ℕ → Bool) → ℕ → Option UpdatePersist
    new_from_records name rrs mutable epoch = elim (soa_of rrs) [
      | none ↦ none
      | some x ↦
          swap c
            (record {
              zone = canonical name;
              mutable = mutable;
              journal = none;
              rrs = rrs;
              view = [];
              epoch = epoch;
            })
            rrs
    ]

    unfoldable pub replace_records : UpdatePersist → List Rr → Option UpdatePersist
    replace_records d rrs = elim (soa_of rrs) [ none ↦ none | some x ↦ swap c d rrs ]

    -- Register changes the journal that is attached; a failure leaves it attached all the same.
    unfoldable pub attach_ixfr : UpdatePersist → Ixfr → S → UpdatePersist × Option IxfrError
    attach_ixfr d x s = elim (Ixfr.register c.backend x d.zone d.rrs s) [
      | err e ↦ (record d { journal = some x }, some e)
      | ok x' ↦ (record d { journal = some x' }, none)
    ]
