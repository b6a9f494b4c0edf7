-- ===== src/Admin/Views.antt =====
-- admin/views.go from cacheLabel to the end, matchMap of admin/admin.go, Contains of
-- admin/store/acl.go, and of admin/dnssec.go what decides whether a query is about keys: which zone
-- answers a query. The maps of the plugin are association lists. What ListACLs and Recursion read
-- from the database is a field. net.ParseCIDR, net.ParseIP, Name of request.Request, Zones.Matches
-- and whether a CDS or CDNSKEY record can be made from the keys in the database are the parameter
-- `Network`.
pub mod Zones
pub mod Names
pub mod Reasons
pub mod Label
pub mod Origins
use coredns_ez.Prelude.{
  ℕ, String, Bool, true, false, not, Option, none, some, List, [], ◌∷◌, map, ◌==◌, nat_tests,
  text_tests, ◌&&◌, ◌||◌, ltb, length, some_of, if◌then◌else◌,
}
use coredns_ez.Dns.{Dns, canonical, to_lower, type_axfr, type_ixfr}
use coredns_ez.JournalText.Scan.{codes}
use coredns_ez.Cachegen.{Ip, Gen, set_matcher}
use coredns_ez.Cache.Message.{Question}
use coredns_ez.Update.Zone.{answers, has_covering_wildcard}
use coredns_ez.Update.Commit.{UpdatePersist}
use coredns_ez.Admin.Filter.{Labels, FilterEngine, blocked}

-- the fields of store.ACL that a query meets
pub record Acl : Type 0 where
  pub name : String
  pub networks : List String

-- A network is given by the addresses it contains.
pub record Network : Type 0 where
  pub parse_ip : String → Option Ip
  pub parse_cidr : String → Option (Ip → Bool)
  pub request_name : List Question → String
  pub zone_matches : List String → String → String
  pub has_cds : String → ℕ → Bool

pub record Admin : Type 0 where
  pub primaries : List (String × UpdatePersist)
  pub views : List (String × List (String × UpdatePersist))
  pub secondaries : Option (List String)
  pub filters : Option FilterEngine
  pub acls : Option (List Acl)  -- `none` for an error
  pub recursion : List String
  pub dnssec_keys : List String

-- who answers
pub data Served : Type 0 where
  by_zone : UpdatePersist → Served
  by_keys by_meta by_secondary by_filter by_next by_refusal : Served

-- the zone of a primary, else a view, else whatever is left
abbrev pub choose : Option UpdatePersist → Option UpdatePersist → Option Served → Option Served
choose (some z) v rest = some (by_zone z)
choose none (some z) rest = some (by_zone z)
choose none none rest = rest

abbrev pub type_dnskey : ℕ
type_dnskey = 48

abbrev pub type_cds : ℕ
type_cds = 59

abbrev pub type_cdnskey : ℕ
type_cdnskey = 60

unfoldable pub value_of : {A : Type 0} → String → List (String × A) → Option A
value_of k [] = none
value_of k ((j, x) ∷ m) = let rest = value_of k m in if j == k then some x else rest

unfoldable pub keys_of : {A : Type 0} → List (String × A) → List String
keys_of [] = []
keys_of ((k, x) ∷ m) = k ∷ keys_of m

abbrev pub size : String → ℕ
size s = length (codes s)

module _ ⦃dns : Dns⦄ where
  abbrev pub covers : String → String → Bool
  covers origin qname = qname == origin || dns.is_sub_domain origin qname

  -- the loop over the keys of a map
  unfoldable pub longest : String → List String → String → String
  longest qname [] best = best
  longest qname (origin ∷ origins) best =
      longest qname origins
        (if covers origin qname && ltb (size best) (size origin) then origin else best)

  -- matchMap and matchViews
  unfoldable pub match_map : {A : Type 0} → List (String × A) → String → String
  unfolding longest keys_of
  match_map m qname = longest qname (keys_of m) ""

  unfoldable pub zone_transfer : List Question → Bool
  zone_transfer [] = false
  zone_transfer (q ∷ qs) = q.qtype == type_axfr || q.qtype == type_ixfr

  unfoldable pub dnssec_zone : Admin → List Question → String
  unfolding longest
  dnssec_zone a [] = ""
  dnssec_zone a (q ∷ qs) = longest (canonical q.name) a.dnssec_keys ""

  -- whether wrapDNSSEC answers itself
  unfoldable pub wants_keys : Admin → List Question → Bool
  unfolding dnssec_zone to_lower
  wants_keys a [] = false
  wants_keys a (q ∷ qs) =
      let origin = dnssec_zone a (q ∷ qs) in
      not (origin == "")
      && q.qtype == type_dnskey
      && to_lower (dns.canonical_name q.name) == to_lower origin

  module _ (net : Network) where
    open net use {parse_ip, parse_cidr, request_name, zone_matches, has_cds}

    -- one round of Contains
    unfoldable pub network_contains : Ip → String → Bool
    network_contains ip n = elim (parse_cidr n) [ none ↦ false | some contains ↦ contains ip ]

    unfoldable pub contains : List String → Option Ip → Bool
    unfolding network_contains
    contains networks none = false
    contains networks (some ip) = some_of (network_contains ip) networks

    -- the loop of matchACL
    unfoldable pub first_acl : List Acl → Ip → Option Acl
    unfolding contains
    first_acl [] ip = none
    first_acl (acl ∷ acls) ip =
        let rest = first_acl acls ip in if contains acl.networks (some ip) then some acl else rest

    unfoldable pub match_acl : Admin → Option Ip → Option Acl
    unfolding first_acl
    match_acl a none = none
    match_acl a (some ip) = elim a.acls [ none ↦ none | some acls ↦ first_acl acls ip ]

    unfoldable pub cache_label : Admin → Ip → String
    unfolding match_acl
    cache_label a ip = elim (match_acl a (some ip)) [ some acl ↦ acl.name | none ↦ "public" ]

    -- `cachegen.SetMatcher(a.cacheLabel)` of admin/setup.go
    unfoldable pub register_label : Admin → Gen → Gen
    unfolding cache_label
    register_label a = set_matcher (some (cache_label a))

    unfoldable pub view_of : Admin → String → String → Option UpdatePersist
    unfolding value_of
    view_of a origin acl = elim (value_of origin a.views) [ none ↦ none | some m ↦ value_of acl m ]

    unfoldable pub matching_view : Admin → String → Option Ip → Option UpdatePersist
    unfolding match_acl view_of
    matching_view a origin ip = elim (match_acl a ip) [
      | none ↦ none
      | some acl ↦ view_of a origin acl.name
    ]

    zone_answers : UpdatePersist → Question → Bool
    zone_answers z q = answers z.rrs q.name q.qtype

    zone_covers : UpdatePersist → Question → Bool
    zone_covers z q = has_covering_wildcard z.rrs z.zone q.name q.qtype

    pick_view_for : Option UpdatePersist → Question → Option UpdatePersist
    unfolding zone_answers zone_covers
    pick_view_for none q = none
    pick_view_for (some v) q = if zone_answers v q || zone_covers v q then some v else none

    unfoldable pub pick_view : Admin → String → List Question → Option Ip → Option UpdatePersist
    unfolding pick_view_for matching_view
    pick_view a origin [] ip = none
    pick_view a origin (q ∷ qs) ip = pick_view_for (matching_view a origin ip) q

    -- view exact, public exact, view wildcard, public
    prefer : Option UpdatePersist → UpdatePersist → Question → UpdatePersist
    unfolding zone_answers zone_covers
    prefer none pub_zone q = pub_zone
    prefer (some v) pub_zone q =
        if zone_answers v q
        then v
        else if zone_answers pub_zone q
        then pub_zone
        else if zone_covers v q
        then v
        else pub_zone

    pick_between : Admin → String → List Question → Option Ip → UpdatePersist → UpdatePersist
    unfolding prefer matching_view zone_transfer
    pick_between a origin [] ip pub_zone = pub_zone
    pick_between a origin (q ∷ qs) ip pub_zone =
        if zone_transfer (q ∷ qs) then pub_zone else prefer (matching_view a origin ip) pub_zone q

    unfoldable pub pick_serve : Admin → String → List Question → Option Ip → Option UpdatePersist
    unfolding pick_between value_of
    pick_serve a origin qs ip = elim (value_of origin a.primaries) [
      | none ↦ none
      | some pub_zone ↦ some (pick_between a origin qs ip pub_zone)
    ]

    unfoldable pub recursion_allowed : Admin → Option Ip → Bool
    unfolding contains
    recursion_allowed a ip = contains a.recursion ip

    -- answerDNSSECMeta
    unfoldable pub wants_meta : List Question → Bool
    wants_meta [] = false
    wants_meta (q ∷ qs) =
        (q.qtype == type_cds || q.qtype == type_cdnskey) && has_cds (canonical q.name) q.qtype

    -- the zone of a primary
    unfoldable pub primary_zone : Admin → List Question → Option Ip → String → Option UpdatePersist
    unfolding match_map pick_serve
    primary_zone a qs ip name =
        let origin = match_map a.primaries name in
        if origin == "" then none else pick_serve a origin qs ip

    -- a view of an origin that is no primary
    unfoldable pub view_zone : Admin → List Question → Option Ip → String → Option UpdatePersist
    unfolding match_map pick_view
    view_zone a qs ip name =
        if zone_transfer qs
        then none
        else let origin = match_map a.views name in
          if origin == "" then none else pick_view a origin qs ip

    unfoldable pub is_secondary : Option (List String) → String → Bool
    is_secondary none name = false
    is_secondary (some names) name = not (zone_matches names name == "")

    unfoldable pub filtered : Labels → Option FilterEngine → String → Option Bool
    filtered labels none name = some false
    filtered labels (some e) name = blocked labels e (codes name)

    -- whom to ask who is not in the plugin
    unfoldable pub passed_on : Admin → Option Ip → Served
    passed_on a ip = if recursion_allowed a ip then by_next else by_refusal

    unfoldable pub elsewhere : Labels → Admin → Option Ip → String → Option Served
    unfolding is_secondary filtered passed_on
    elsewhere labels a ip name =
        if is_secondary a.secondaries name
        then some by_secondary
        else elim (filtered labels a.filters name) [
          | none ↦ none
          | some true ↦ some by_filter
          | some false ↦ some (passed_on a ip)
        ]

    -- serveWithNext once keys are out of the way; `none` if the loop of the filter had no fuel
    unfoldable pub route : Labels → Admin → List Question → Option Ip → Option Served
    unfolding primary_zone view_zone elsewhere
    route labels a qs ip =
        let name = request_name qs in
        choose (primary_zone a qs ip name) (view_zone a qs ip name) (elsewhere labels a ip name)

    unfoldable pub serve_with_next : Labels → Admin → List Question → String → Option Served
    unfolding route wants_keys wants_meta
    serve_with_next labels a qs remote =
        if wants_keys a qs
        then some by_keys
        else if wants_meta qs
        then some by_meta
        else route labels a qs (parse_ip remote)
