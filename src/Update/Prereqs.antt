-- ===== src/Update/Prereqs.antt =====
-- checkPrereqs of dns-update-persistent/update.go (RFC 2136 section 3.2).
pub mod Sound
use coredns_ez.Prelude.{
  ℕ, String, Bool, true, false, not, List, [], ◌∷◌, ◌++◌, Result, ok, err, ◌>>=◌, ◌==◌, nat_tests,
  text_tests, ◌&&◌, if◌then◌else◌,
}
use coredns_ez.Dns.{
  Rr, header, type_any, class_any, class_none, class_inet, Rcode, success, format_error, name_error,
  yx_domain, yx_rrset, nx_rrset, not_zone, Dns,
}
use coredns_ez.Update.Zone.{key_of, in_zone, name_in_use, rrset_exists, rrset_of, same_rrset}

abbrev pub RrsetKey : Type 0
RrsetKey = String × ℕ

abbrev pub key_eq : RrsetKey → RrsetKey → Bool
key_eq (n, t) (m, u) = n == m && t == u

-- the map `valueDependent`, in order of first use
abbrev pub ValueDependent : Type 0
ValueDependent = List (RrsetKey × List Rr)

-- `valueDependent[k] = append(valueDependent[k], rr)`
unfoldable pub append_at : RrsetKey → Rr → ValueDependent → ValueDependent
append_at k rr [] = (k, rr ∷ []) ∷ []
append_at k rr ((j, rrs) ∷ m) =
    let rest = append_at k rr m in if key_eq j k then (j, rrs ++ rr ∷ []) ∷ m else (j, rrs) ∷ rest

module _ ⦃dns : Dns⦄ (rrs : List Rr) (zone : String) where
  -- class ANY: the name, or the RRset, exists
  unfoldable pub must_exist : Rr → ValueDependent → Result Rcode ValueDependent
  must_exist rr vd =
      let h = header rr in
      if not (h.rdlength == 0)
      then err format_error
      else if h.rrtype == type_any
      then (if name_in_use rrs h.name then ok vd else err name_error)
      else if rrset_exists rrs h.name h.rrtype
      then ok vd
      else err nx_rrset

  -- class NONE: the name, or the RRset, does not exist
  unfoldable pub must_not_exist : Rr → ValueDependent → Result Rcode ValueDependent
  must_not_exist rr vd =
      let h = header rr in
      if not (h.rdlength == 0)
      then err format_error
      else if h.rrtype == type_any
      then (if name_in_use rrs h.name then err yx_domain else ok vd)
      else if rrset_exists rrs h.name h.rrtype
      then err yx_rrset
      else ok vd

  -- one round of the first loop
  unfoldable pub check_prereq : Rr → ValueDependent → Result Rcode ValueDependent
  unfolding must_exist must_not_exist
  check_prereq rr vd =
      let h = header rr in
      if not (h.ttl == 0)
      then err format_error
      else if not (in_zone zone h.name)
      then err not_zone
      else if h.class == class_any
      then must_exist rr vd
      else if h.class == class_none
      then must_not_exist rr vd
      else if h.class == class_inet
      then ok (append_at (key_of h.name h.rrtype) rr vd)
      else err format_error

  unfoldable pub scan_prereqs : List Rr → ValueDependent → Result Rcode ValueDependent
  scan_prereqs [] vd = ok vd
  scan_prereqs (rr ∷ prereqs) vd = check_prereq rr vd >>= scan_prereqs prereqs

  -- the second loop
  unfoldable pub check_values : ValueDependent → Rcode
  check_values [] = success
  check_values (((name, rrtype), want) ∷ vd) =
      let rest = check_values vd in
      if same_rrset (rrset_of rrs name rrtype) want then rest else nx_rrset

  unfoldable pub check_prereqs : List Rr → Rcode
  check_prereqs prereqs = elim (scan_prereqs prereqs []) [ ok vd ↦ check_values vd | err e ↦ e ]
