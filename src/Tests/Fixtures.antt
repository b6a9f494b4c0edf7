-- ===== src/Tests/Fixtures.antt =====
-- A small zone, and functions that stand in for github.com/miekg/dns on it.
use Prim.Native.String.{◌++◌ as str_append}
use coredns_ez.Prelude.{
  ℕ, String, Bool, true, false, none, List, [], ◌∷◌, ◌==◌, text_tests, if◌then◌else◌,
}
use coredns_ez.Dns.{Header, Soa, Rr, soa, other, Dns}

abbrev pub show : Rr → String
show (soa h s) = "SOA"
show (other h d) = str_append h.name (str_append " " d)

abbrev pub same : Rr → Rr → Bool
same (soa _ _) y = false
same (other _ _) (soa _ _) = false
same (other h d) (other g e) = show (other h d) == show (other g e)

-- whether the second name ends in the first
abbrev pub below : String → String → Bool
below zone String.[] = false
below zone (String.◌∷◌ c s) =
    let rest = below zone s in if zone == String.◌∷◌ c s then true else rest

instance abbrev pub simple_dns : Dns
simple_dns = record {
  canonical_name = λ n. n;
  to_string = show;
  new_rr = λ t. none;
  is_duplicate = same;
  is_sub_domain = below;
}

abbrev pub hdr : String → ℕ → Header
hdr name rrtype = record { name = name; rrtype = rrtype; class = 1; ttl = 300; rdlength = 4 }

abbrev pub origin : String
origin = "example.org."

abbrev pub apex_soa : ℕ → Soa
apex_soa serial = record {
  ns = "ns.example.org.";
  mbox = "hostmaster.example.org.";
  serial = serial;
  refresh = 7200;
  retry = 3600;
  expire = 1209600;
  minttl = 3600;
}

abbrev pub apex : ℕ → Rr
apex serial = soa (hdr origin 6) (apex_soa serial)

abbrev pub apex_ns : Rr
apex_ns = other (hdr origin 2) "ns.example.org."

abbrev pub www : String → Rr
www address = other (hdr "www.example.org." 1) address

-- three generations of the zone
abbrev pub gen1 : List Rr
gen1 = apex 1 ∷ apex_ns ∷ www "192.0.2.1" ∷ []

abbrev pub gen2 : List Rr
gen2 = apex 2 ∷ apex_ns ∷ www "192.0.2.2" ∷ []

abbrev pub gen3 : List Rr
gen3 = apex 3 ∷ apex_ns ∷ www "192.0.2.2" ∷ www "192.0.2.3" ∷ []
