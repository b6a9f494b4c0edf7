-- ===== src/Update/Zone.antt =====
-- dns-update-persistent/zone.go: questions to the flat list of records, and keys of records.
pub mod Multiset
use Prim.Native.Char.{code}
use Prim.Native.String.{◌++◌ as str_append}
use coredns_ez.Prelude.{
  ℕ, suc, ◌+◌, ◌%◌, ◌-◌, String, Bool, true, false, not, Option, none, some, List, [], ◌∷◌, ◌==◌,
  nat_tests, text_tests, ◌&&◌, ◌||◌, length, some_of, keep, if◌then◌else◌,
}
use coredns_ez.Dns.{
  Rr, soa, other, header, with_header, type_cname, type_opt, type_rrsig, type_nsec, type_ixfr,
  type_axfr, type_maila, type_mailb, type_any, class_inet, Dns, canonical,
}
use coredns_ez.Dns.Serial.{u32_mod}

module _ ⦃dns : Dns⦄ where
  unfoldable pub same_name : Rr → String → Bool
  unfolding header
  same_name rr name = canonical (header rr).name == name

  -- keyOf: the name in canonical form, and the type
  unfoldable pub key_of : String → ℕ → String × ℕ
  key_of name rrtype = (canonical name, rrtype)

  unfoldable pub in_zone : String → String → Bool
  in_zone origin name = let n = canonical name in n == origin || dns.is_sub_domain origin n

  -- the test of rrsetOf and countRRset
  unfoldable pub is_of : String → ℕ → Rr → Bool
  unfolding same_name
  is_of name rrtype rr = same_name rr name && (header rr).rrtype == rrtype

  unfoldable pub name_in_use : List Rr → String → Bool
  unfolding same_name
  name_in_use rrs name = some_of (λ rr. same_name rr (canonical name)) rrs

  unfoldable pub rrset_of : List Rr → String → ℕ → List Rr
  unfolding is_of
  rrset_of rrs name rrtype = keep (is_of (canonical name) rrtype) rrs

  unfoldable pub rrset_exists : List Rr → String → ℕ → Bool
  rrset_exists rrs name rrtype = not (length (rrset_of rrs name rrtype) == 0)

  -- A record without its TTL, in class IN.
  unfoldable pub rdata_key : Rr → String
  unfolding header with_header
  rdata_key rr =
      let h = header rr in
      dns.to_string
        (with_header (record h { name = canonical h.name; ttl = 0; class = class_inet }) rr)

  unfoldable pub index_from : ℕ → List Rr → String → Option ℕ
  index_from i [] k = none
  index_from i (rr ∷ rrs) k =
      let rest = index_from (suc i) rrs k in if rdata_key rr == k then some i else rest

  unfoldable pub index_of_rr : List Rr → Rr → Option ℕ
  unfolding index_from
  index_of_rr rrs want = index_from 0 rrs (rdata_key want)

  -- how often a key occurs: the map `counts`
  unfoldable pub count_key : String → List Rr → ℕ
  count_key k [] = 0
  count_key k (rr ∷ rrs) = (if rdata_key rr == k then 1 else 0) + count_key k rrs

  -- the second loop of sameRRset, over the map as a function
  unfoldable pub use_counts : (String → ℕ) → List Rr → Bool
  use_counts counts [] = true
  use_counts counts (rr ∷ want) =
      let k = rdata_key rr in
      let rest = use_counts (λ x. if k == x then counts x - 1 else counts x) want in
      if counts k == 0 then false else rest

  unfoldable pub same_rrset : List Rr → List Rr → Bool
  same_rrset have want =
      if length have == length want then use_counts (λ k. count_key k have) want else false

  unfoldable pub delete_where : List Rr → Bool → (Rr → Bool) → List Rr × Bool
  delete_where rrs changed match =
      (keep (λ rr. not (match rr)) rrs, if some_of match rrs then true else changed)

  unfoldable pub count_rrset : List Rr → String → ℕ → ℕ
  unfolding is_of
  count_rrset rrs name rrtype = length (keep (is_of name rrtype) rrs)

  unfoldable pub has_cname : List Rr → String → Bool
  unfolding is_of
  has_cname rrs name = some_of (is_of name type_cname) rrs

  -- RRSIG and NSEC may stand beside a CNAME.
  unfoldable pub beside_cname : ℕ → Bool
  beside_cname t = t == type_cname || t == type_rrsig || t == type_nsec

  unfoldable pub has_non_cname : List Rr → String → Bool
  unfolding same_name beside_cname
  has_non_cname rrs name =
      some_of (λ rr. same_name rr name && not (beside_cname (header rr).rrtype)) rrs

  -- HasRRset and Answers: an exact set, or a CNAME that another query would follow
  unfoldable pub answers : List Rr → String → ℕ → Bool
  unfolding rrset_exists
  answers rrs name qtype =
      rrset_exists rrs name qtype || (not (qtype == type_cname) && rrset_exists rrs name type_cname)

  -- The loop of HasCoveringWildcard, along the characters of the name: `rest` is the name's next
  -- parent where a label ends.
  walk_parents : List Rr → String → ℕ → String → Bool
  unfolding answers
  walk_parents rrs origin qtype String.[] = false
  walk_parents rrs origin qtype (String.◌∷◌ c rest) =
      let further = walk_parents rrs origin qtype rest in
      if code c == b'.'
      then (if answers rrs (str_append "*." rest) qtype
          then true
          else if rest == origin
          then false
          else further)
      else further

  unfoldable pub has_covering_wildcard : List Rr → String → String → ℕ → Bool
  unfolding walk_parents
  has_covering_wildcard rrs origin name qtype =
      let c = canonical name in
      if c == origin || not (dns.is_sub_domain origin c)
      then false
      else walk_parents rrs origin qtype c

unfoldable pub bump_serial : List Rr → List Rr
bump_serial [] = []
bump_serial (soa h s ∷ rrs) = soa h (record s { serial = (s.serial + 1) % u32_mod }) ∷ rrs
bump_serial (other h d ∷ rrs) = other h d ∷ bump_serial rrs

unfoldable pub is_meta_type : ℕ → Bool
is_meta_type t =
    t == type_any
    || t == type_axfr
    || t == type_ixfr
    || t == type_maila
    || t == type_mailb
    || t == type_opt
