-- ===== src/Tests/Catalogs.antt =====
-- A secondary with one configured zone, to which a catalog or the API brings another.
use coredns_ez.Prelude.{
  ◌≡◌, true, String, refl, inl, some, none, List, [], ◌∷◌, false, arith, ◌==◌, text_tests,
  if◌then◌else◌,
}
use coredns_ez.Secondary.Catalog.{Member, Zone, Engine, apply_catalog}
use coredns_ez.Secondary.Catalog.Owned.{Agree, apply_catalog-Agree}
use coredns_ez.Secondary.Catalog.Same.{Same}
use coredns_ez.Secondary.Catalog.Static.{apply_catalog-Same}
use coredns_ez.Dns.{soa, soa_of}
use coredns_ez.Dns.Serial.{less}
use coredns_ez.Secondary.Primary.{Reply, failed, answered, ask_masters, should_transfer}
use coredns_ez.Tests.Fixtures.{gen1, simple_dns, hdr, origin, apex_soa}

abbrev zone1 : Zone
zone1 = record { number = 0; transfer_from = "192.0.2.53:53" ∷ []; rrs = gen1; expired = false }

abbrev engine1 : Engine
engine1 = record {
  zones = λ n. if "example.org." == n then some zone1 else none;
  names = "example.org." ∷ [];
  zone_names = λ k. none;
  dynamic_zones = λ n. none;
  catalogs = λ n. none;
  catalog_zones = λ n. some [];
  catalog_member_zones = λ n. "example.org." ∷ [];
  next_number = 1;
  closed = [];
  removed_files = [];
}

abbrev members1 : List Member
members1 =
    record { zone = "example.org."; id = "a"; change_of_ownership = "" }
    ∷ record { zone = "example.com."; id = "b"; change_of_ownership = "" }
    ∷ []

abbrev no_match : List String → String → String
no_match zones n = ""

engine1-Agree : Agree engine1
engine1-Agree = record { listed = λ n. ground arith; owned = λ n. ground arith }

apply_catalog-Agree_example : Agree (apply_catalog no_match "catalog." members1 none engine1).0
apply_catalog-Agree_example =
    apply_catalog-Agree no_match "catalog." members1 none engine1 engine1-Agree

apply_catalog-Same_example :
    Same "example.org." engine1 (apply_catalog no_match "catalog." members1 none engine1).0
apply_catalog-Same_example =
    apply_catalog-Same no_match "catalog." "example.org." members1 none engine1
      (zone1, refl, inl refl)

-- the first master fails, and the others have the zone at serial 3
abbrev ask1 : String → Reply
ask1 m = if m == "192.0.2.53:53" then failed else answered (soa (hdr origin 6) (apex_soa 3) ∷ [])

abbrev masters1 : List String
masters1 = "192.0.2.53:53" ∷ "192.0.2.54:53" ∷ []

should_transfer1 : (should_transfer ask1 masters1 (some 2)).0 ≡ true
unfolding should_transfer ask_masters soa_of less
should_transfer1 = refl
