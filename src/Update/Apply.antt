-- ===== src/Update/Apply.antt =====
-- apply of dns-update-persistent/update.go (RFC 2136 section 3.4.2).
pub mod Edits
pub mod Exclusive
pub mod Again
pub mod CnameEdits
pub mod Policy
pub mod Foreign
pub mod Steps
pub mod Apex
use coredns_ez.Prelude.{
  ℕ, String, Bool, true, false, not, Option, none, some, List, [], ◌∷◌, ◌++◌, get_elem?, remove_at,
  modify, leb, ◌==◌, nat_tests, text_tests, ◌&&◌, ◌||◌, if◌then◌else◌,
}
use coredns_ez.Dns.{
  Header, Soa, Rr, soa, other, header, with_header, soa_of, type_any, type_cname, type_ns, type_soa,
  class_any, class_none, class_inet, Dns, canonical,
}
use coredns_ez.Dns.Serial.{serial_greater}
use coredns_ez.Update.Zone.{
  same_name, is_of, index_of_rr, delete_where, count_rrset, has_cname, has_non_cname,
}

-- the records so far, and whether anything changed
abbrev pub Outcome : Type 0
Outcome = List Rr × Bool

-- `out[i] = rr` at the first SOA
unfoldable pub put_soa : Rr → List Rr → List Rr
put_soa new [] = []
put_soa new (soa h s ∷ rrs) = new ∷ rrs
put_soa new (other h d ∷ rrs) = other h d ∷ put_soa new rrs

-- A replacement SOA takes effect only if its serial is greater.
unfoldable pub add_soa : Rr → Outcome → Outcome
unfolding put_soa
add_soa (other h d) o = o
add_soa (soa h s) (out, changed) = elim (soa_of out) [
  | none ↦ (out, changed)
  | some (_, cur) ↦
      if serial_greater s.serial cur.serial then (put_soa (soa h s) out, true) else (out, changed)
]

unfoldable pub ttl_at : ℕ → List Rr → Option ℕ
ttl_at i rrs = elim (get_elem? rrs i) [ none ↦ none | some rr ↦ some (header rr).ttl ]

unfoldable pub set_ttl : ℕ → Rr → Rr
set_ttl ttl rr = with_header (record (header rr) { ttl = ttl }) rr

module _ ⦃dns : Dns⦄ where
  -- the end of the class IN branch: only the TTL of a record that is there, or one more record
  unfoldable pub add_rr : Rr → Outcome → Outcome
  add_rr rr (out, changed) = elim (index_of_rr out rr) [
    | none ↦ (out ++ rr ∷ [], true)
    | some i ↦ elim (ttl_at i out) [
      | none ↦ (out, changed)
      | some ttl ↦
          if ttl == (header rr).ttl
          then (out, changed)
          else (modify i (set_ttl (header rr).ttl) out, true)
    ]
  ]

  unfoldable pub apply_add : Rr → Outcome → Outcome
  apply_add rr (out, changed) =
      let t = (header rr).rrtype in
      let name = canonical (header rr).name in
      if t == type_soa
      then add_soa rr (out, changed)
      else if t == type_cname && has_non_cname out name
      then (out, changed)
      else if not (t == type_cname) && has_cname out name
      then (out, changed)
      else add_rr rr (out, changed)

  -- what class ANY, type ANY deletes: all at the name, but not the SOA and NS of the apex
  unfoldable pub wiped : String → String → Rr → Bool
  wiped zone name x =
      same_name x name
      && not (name == zone && ((header x).rrtype == type_soa || (header x).rrtype == type_ns))

  unfoldable pub apply_wipe : String → Rr → Outcome → Outcome
  apply_wipe zone rr (out, changed) =
      let t = (header rr).rrtype in
      let name = canonical (header rr).name in
      if t == type_any
      then delete_where out changed (wiped zone name)
      else if name == zone && (t == type_soa || t == type_ns)
      then (out, changed)
      else delete_where out changed (is_of name t)

  unfoldable pub apply_delete : String → Rr → Outcome → Outcome
  apply_delete zone rr (out, changed) =
      let t = (header rr).rrtype in
      let name = canonical (header rr).name in
      if name == zone && t == type_soa
      then (out, changed)
      else if name == zone && t == type_ns && leb (count_rrset out name type_ns) 1
      then (out, changed)
      else elim (index_of_rr out rr) [ none ↦ (out, changed) | some i ↦ (remove_at i out, true) ]

  unfoldable pub apply_rr : String → Rr → Outcome → Outcome
  apply_rr zone rr o =
      let c = (header rr).class in
      if c == class_inet
      then apply_add rr o
      else if c == class_any
      then apply_wipe zone rr o
      else if c == class_none
      then apply_delete zone rr o
      else o

  unfoldable pub apply_from : String → List Rr → Outcome → Outcome
  apply_from zone [] o = o
  apply_from zone (rr ∷ updates) o = apply_from zone updates (apply_rr zone rr o)

  unfoldable pub apply : String → List Rr → List Rr → Outcome
  unfolding apply_from
  apply zone rrs updates = apply_from zone updates (rrs, false)
