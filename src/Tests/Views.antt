-- ===== src/Tests/Views.antt =====
-- The plugin admin with one zone, a view of it for one network, and one client who may recurse.
use mathlib.Core.Path.{subst}
use coredns_ez.Prelude.Options.{some_injective}
use coredns_ez.Prelude.{
  All, ap, sym, ◌∙◌, ℕ, ◌≡◌, refl, String, false, Option, none, some, List, [], ◌∷◌, ◌==◌, ◌&&◌,
  nat_tests, text_tests, eq_iff, arith, if◌then◌else◌, here, there, Any, Any_cons_iff, inl, inr,
}
use coredns_ez.Dns.{Rr, type_axfr, canonical}
use coredns_ez.Cachegen.{Ip, v4, v6, Gen, set_matcher, label}
use coredns_ez.Cache.Message.{Question}
use coredns_ez.Update.Zone.{answers, rrset_of}
use coredns_ez.Update.Commit.{UpdatePersist}
use coredns_ez.Admin.Views.{
  Network, Admin, Served, by_next, by_zone, by_refusal, is_secondary, filtered, wants_keys,
  wants_meta, contains, match_acl, cache_label, register_label, recursion_allowed, match_map,
  keys_of, route, serve_with_next, size,
}
use coredns_ez.Admin.Views.Reasons.{Reason, route-Reason}
use coredns_ez.Admin.Views.Names.{IsAllowed, NamesAllowed}
use coredns_ez.Admin.Views.Label.{IsElsewhere, serve_with_next-label, recursion_outside_label}
use coredns_ez.Admin.Views.Origins.{Apart, match_map_order}
use coredns_ez.Tests.Fixtures.{simple_dns, gen1, www, origin}
use coredns_ez.Tests.Filters.{labels1}

-- the two addresses of the network, the one that may recurse, and another one
abbrev parse1 : String → Option Ip
parse1 t =
    if t == "10.0.0.1"
    then some (v4 (10 ∷ 0 ∷ 0 ∷ 1 ∷ []))
    else if t == "10.0.0.2"
    then some (v4 (10 ∷ 0 ∷ 0 ∷ 2 ∷ []))
    else if t == "192.0.2.1"
    then some (v4 (192 ∷ 0 ∷ 2 ∷ 1 ∷ []))
    else some (v4 (192 ∷ 0 ∷ 2 ∷ 2 ∷ []))

abbrev first_byte : Ip → ℕ
first_byte (v4 []) = 0
first_byte (v4 (b ∷ bs)) = b
first_byte (v6 bs) = 0

abbrev last_byte : List ℕ → ℕ
last_byte [] = 0
last_byte (b ∷ []) = b
last_byte (b ∷ c ∷ cs) = last_byte (c ∷ cs)

abbrev host_byte : Ip → ℕ
host_byte (v4 bs) = last_byte bs
host_byte (v6 bs) = last_byte bs

abbrev asked_name : List Question → String
asked_name [] = "."
asked_name (q ∷ qs) = q.name

abbrev net1 : Network
net1 = record {
  parse_ip = parse1;
  parse_cidr = λ n.
      if n == "10.0.0.0/8"
      then some (λ ip. first_byte ip == 10)
      else some (λ ip. first_byte ip == 192 && host_byte ip == 1);
  request_name = asked_name;
  zone_matches = λ names name. "";
  has_cds = λ name t. false;
}

abbrev zone_of1 : List Rr → UpdatePersist
zone_of1 rrs = record {
  zone = origin;
  mutable = none;
  journal = none;
  rrs = rrs;
  view = rrs;
  epoch = 0;
}

abbrev public1 : UpdatePersist
public1 = zone_of1 gen1

abbrev view1 : UpdatePersist
view1 = zone_of1 (www "10.0.0.80" ∷ [])

abbrev admin1 : Admin
admin1 = record {
  primaries = (origin, public1) ∷ [];
  views = (origin, ("lan", view1) ∷ []) ∷ [];
  secondaries = none;
  filters = none;
  acls = some (record { name = "lan"; networks = "10.0.0.0/8" ∷ [] } ∷ []);
  recursion = "192.0.2.1/32" ∷ [];
  dnssec_keys = [];
}

abbrev ask : String → ℕ → List Question
ask name qtype = record { name = name; qtype = qtype; qclass = 1 } ∷ []

abbrev lan1 : Option Ip
lan1 = some (v4 (10 ∷ 0 ∷ 0 ∷ 1 ∷ []))

view_answers :
    serve_with_next net1 labels1 admin1 (ask "www.example.org." 1) "10.0.0.1" ≡ some (by_zone view1)
unfolding serve_with_next answers rrset_of canonical
view_answers = refl

public_transfers :
    serve_with_next net1 labels1 admin1 (ask origin type_axfr) "10.0.0.1" ≡ some (by_zone public1)
unfolding serve_with_next answers rrset_of canonical
public_transfers = refl

others_get_public :
    serve_with_next net1 labels1 admin1 (ask "www.example.org." 1) "192.0.2.2"
    ≡ some (by_zone public1)
unfolding serve_with_next answers rrset_of canonical
others_get_public = refl

route-Reason_example :
    (s : Served) × (route net1 labels1 admin1 (ask "www.example.org." 1) lan1 ≡ some s)
    × Reason net1 labels1 admin1 (ask "www.example.org." 1) lan1 s
route-Reason_example = route-Reason net1 labels1 admin1 (ask "www.example.org." 1) lan1

abbrev gen0 : Gen
gen0 = record { epoch = 0; matcher = none }

named1 : NamesAllowed net1 admin1
named1 acls e =
    subst (All IsAllowed) (some_injective e)
      ((λ p. absurd (cc p), λ p. absurd (cc ((eq_iff "lan" "public").1 p))), tt)

serve_with_next-label_example :
    serve_with_next net1 labels1 admin1 (ask "www.example.org." 1) "10.0.0.1"
    ≡ serve_with_next net1 labels1 admin1 (ask "www.example.org." 1) "10.0.0.2"
unfolding register_label label set_matcher cache_label recursion_allowed
serve_with_next-label_example =
    serve_with_next-label net1 admin1 labels1 gen0 (ask "www.example.org." 1) "10.0.0.1" "10.0.0.2"
      (v4 (10 ∷ 0 ∷ 0 ∷ 1 ∷ [])) (v4 (10 ∷ 0 ∷ 0 ∷ 2 ∷ [])) named1 refl refl refl refl

www_IsElsewhere : IsElsewhere net1 admin1 labels1 (ask "www.example.com." 1)
unfolding is_secondary filtered match_map wants_keys wants_meta
www_IsElsewhere = record {
  no_keys = refl;
  no_meta = refl;
  no_primary = refl;
  no_secondary = refl;
  not_blocked = refl;
}

recursion_outside_label_example :
    (label parse1 (register_label net1 admin1 gen0) "192.0.2.1"
      ≡ label parse1 (register_label net1 admin1 gen0) "192.0.2.2")
    × (serve_with_next net1 labels1 admin1 (ask "www.example.com." 1) "192.0.2.1" ≡ some by_next)
    × (serve_with_next net1 labels1 admin1 (ask "www.example.com." 1) "192.0.2.2" ≡ some by_refusal)
unfolding match_acl contains
recursion_outside_label_example =
    recursion_outside_label net1 admin1 labels1 gen0 (ask "www.example.com." 1) "192.0.2.1"
      "192.0.2.2" (v4 (192 ∷ 0 ∷ 2 ∷ 1 ∷ [])) (v4 (192 ∷ 0 ∷ 2 ∷ 2 ∷ [])) named1 refl refl refl refl
      refl refl www_IsElsewhere

abbrev map1 : List (String × ℕ)
map1 = ("org.", 1) ∷ (origin, 2) ∷ []

abbrev map2 : List (String × ℕ)
map2 = (origin, 2) ∷ ("org.", 1) ∷ []

swapped : {A : Type 0} {P : A → Type 0} (x y : A) → Any P (x ∷ y ∷ []) → Any P (y ∷ x ∷ [])
swapped x y a = elim ((Any_cons_iff x _).0 a) [
  | inl p ↦ there y _ (here x [] p)
  | inr b ↦ elim ((Any_cons_iff y []).0 b) [ inl p ↦ here y _ p | inr c ↦ elim c [ ] ]
]

apart1 : Apart "www.example.org." (keys_of map1)
unfolding keys_of
apart1 x y (here _ _ p) (here _ _ q) _ _ _ = sym p ∙ q
apart1 x y (here _ _ p) (there _ _ (here _ _ q)) _ _ e =
    absurd (omega (arith, e, ap size p, ap size q))
apart1 x y (there _ _ (here _ _ p)) (here _ _ q) _ _ e =
    absurd (omega (arith, e, ap size p, ap size q))
apart1 x y (there _ _ (here _ _ p)) (there _ _ (here _ _ q)) _ _ _ = sym p ∙ q
apart1 x y (here _ _ p) (there _ _ (there _ _ q)) _ _ e = elim q [ ]
apart1 x y (there _ _ (here _ _ p)) (there _ _ (there _ _ q)) _ _ e = elim q [ ]
apart1 x y (there _ _ (there _ _ p)) _ _ _ e = elim p [ ]

match_map_order_example : match_map map1 "www.example.org." ≡ match_map map2 "www.example.org."
unfolding keys_of
match_map_order_example =
    match_map_order "www.example.org." map1 map2
      (λ x. (swapped "org." origin, swapped origin "org.")) apart1
