-- ===== src/Tests/Caches.antt =====
-- A cache whose CoreDNS is a map of items, and the answers for one name.
use coredns_ez.Prelude.{
  ℕ, ◌+◌, ◌≡◌, ◌≢◌, ◌⊎◌, ◌↔◌, refl, inl, inr, String, Bool, true, false, Option, none, some, List,
  [], ◌∷◌, arith, ◌==◌, nat_tests, text_tests, if◌then◌else◌, if_some, nat_test_iff,
}
use coredns_ez.Dns.{to_lower}
use coredns_ez.Cachegen.{v4, Gen}
use coredns_ez.Cache.Message.{
  AnswerRr, cname, other, Question, Msg, no_error, malformed, no_fuel, canonical_name, has_rr,
  answer_has_type, header_of, class_matches, equal_fold, target_from, unique_cname_target, contains,
  add, walk,
}
use coredns_ez.Cache.Chain.{canonical_name-ends}
use coredns_ez.Cache.Chain.Answered.{Leads, Only, answer_has_type-Resolves}
use coredns_ez.Cache.Keys.{bucket_of, hash, fnv64, hash_input}
use coredns_ez.Cache.Keys.Buckets.{SameNetwork, bucket_of_iff}
use coredns_ez.Cache.Item.{
  Request, Item, Content, item, content, unrefreshed, begin_refresh, end_refresh, last_known_good,
  matches, ttl_at,
}
use coredns_ez.Cache.Item.Refreshes.{Steps, begins, ends, here, next, Single, Steps-Single}
use coredns_ez.Cache.State.{Library, Config, Cache}
use coredns_ez.Cache.Lookup.{get_if_not_stale, lookup, is_live}
use coredns_ez.Cache.Lookup.Hits.{Found, InTime, lookup-Found}
use coredns_ez.Cache.Scopes.{Scope, Filed}
use coredns_ez.Cache.Scopes.Isolation.{
  IsQuery, Collide, asked_bytes, cached_bytes, get_if_not_stale-Scope,
}
use coredns_ez.Tests.Fixtures.{hdr}

abbrev pub names_match : String → List Question → Bool
names_match name [] = false
names_match name (q ∷ qs) = to_lower q.name == name

abbrev pub empty_msg : Msg
empty_msg = record {
  truncated = false;
  authoritative = false;
  authenticated_data = false;
  recursion_available = false;
  rcode = 0;
  question = [];
  answer = [];
  ns = [];
  extra = [];
}

abbrev pub first_zone : List String → String → String
first_zone [] name = ""
first_zone (z ∷ zs) name = z

-- every reply is a positive one
abbrev pub lib1 : Library
lib1 = record {
  Store = ℕ → Option Item;
  get = λ k st. st k;
  add = λ k i st. λ j. if j == k then some i else st j;
  remove = λ k st. λ j. if j == k then none else st j;
  Freq = ℕ;
  new_freq = 0;
  update_freq = λ d now f. f + 1;
  hits = λ f. f;
  reset = λ now n f. n;
  typify = λ m now. no_error;
  minimal_ttl = λ m t high. high;
  match_reply = λ q m. names_match q.name m.question;
  zone_of = first_zone;
  set_reply = λ q. empty_msg;
  parse_ip = λ t.
      if t == "192.0.2.1"
      then some (v4 (192 ∷ 0 ∷ 2 ∷ 1 ∷ []))
      else if t == "192.0.2.99"
      then some (v4 (192 ∷ 0 ∷ 2 ∷ 99 ∷ []))
      else none;
  threshold = λ percentage ttl. percentage;
}

abbrev pub config1 : Config
config1 = record {
  zones = "." ∷ [];
  nttl = 1800000000000;
  minnttl = 5000000000;
  pttl = 3600000000000;
  minpttl = 5000000000;
  failttl = 5000000000;
  prefetch = 0;
  duration = 60000000000;
  percentage = 10;
  stale_up_to = 3600000000000;
  verify_stale = true;
  verify_stale_timeout = 0;
  prefer_positive = false;
  stale_ttl = 0;
  stale_recheck = 0;
  pexcept = [];
  nexcept = [];
  keepttl = false;
  masks = record { mask4 = 24; mask6 = 64 };
}

abbrev pub gen0 : Gen
gen0 = record { epoch = 7; matcher = none }

abbrev pub cache0 : Cache lib1
cache0 = record {
  config = config1;
  ncache = λ k. none;
  pcache = λ k. none;
  refreshes = λ k. unrefreshed;
  freqs = λ k. 0;
  next_id = 0;
  gen = gen0;
}

abbrev pub asked : Request
asked = record {
  name = "www.example.org.";
  qname = "WWW.example.org.";
  qtype = 1;
  qclass = 1;
  do_bit = false;
  cd = false;
  ad = false;
  ip = "192.0.2.1";
}

-- a name with two CNAME records to one address
abbrev pub chain1 : List AnswerRr
chain1 =
    cname (hdr "www.example.org." 5) "web.example.org."
    ∷ cname (hdr "web.example.org." 5) "host.example.org."
    ∷ other (hdr "host.example.org." 1) "192.0.2.7"
    ∷ []

canonical_name-ends_example : canonical_name chain1 "www.example.org." 1 ≢ no_fuel
canonical_name-ends_example = canonical_name-ends chain1 "www.example.org." 1

-- two names that are aliases of each other
loop1 :
    canonical_name
      (cname (hdr "a.example.org." 5) "b.example.org."
        ∷ cname (hdr "b.example.org." 5) "A.example.org."
        ∷ [])
      "a.example.org."
      1
    ≡ malformed
unfolding canonical_name walk unique_cname_target target_from class_matches equal_fold to_lower
    contains add
loop1 = refl

has_address1 : answer_has_type chain1 "www.example.org." 1 1 ≡ true
unfolding answer_has_type canonical_name walk unique_cname_target target_from class_matches
    equal_fold to_lower contains add has_rr header_of
has_address1 = refl

answer_has_type-Resolves_example :
    (end : String) × Leads chain1 1 "www.example.org." end
    × Only chain1 1 end ""
    × (has_rr chain1 end 1 1 ≡ true)
answer_has_type-Resolves_example =
    answer_has_type-Resolves chain1 "www.example.org." 1 1 (omega arith) (omega arith) has_address1

bucket_of_iff_example :
    (bucket_of lib1.parse_ip config1.masks "192.0.2.1"
      ≡ bucket_of lib1.parse_ip config1.masks "192.0.2.99")
    ↔ SameNetwork config1.masks (v4 (192 ∷ 0 ∷ 2 ∷ 1 ∷ [])) (v4 (192 ∷ 0 ∷ 2 ∷ 99 ∷ []))
bucket_of_iff_example =
    bucket_of_iff lib1.parse_ip config1.masks "192.0.2.1" "192.0.2.99" (v4 (192 ∷ 0 ∷ 2 ∷ 1 ∷ []))
      (v4 (192 ∷ 0 ∷ 2 ∷ 99 ∷ [])) refl refl (omega arith) (omega arith)

-- two callers ask, one may refresh, and it fails
flight1 :
    Steps
      (record { refresh = unrefreshed; running = 0 })
      (record { refresh = record { refreshing = false; retry_after = some 135 }; running = 0 })
unfolding begin_refresh end_refresh
flight1 =
    next
      (next (next here (begins 100 30 (record { refresh = unrefreshed; running = 0 }))) (
        begins 101 30
          (record { refresh = record { refreshing = true; retry_after = none }; running = 1 })))
      (ends 105 30 false
        (record { refresh = record { refreshing = true; retry_after = none }; running = 1 })
        (omega arith))

Steps-Single_example :
    Single (record { refresh = record { refreshing = false; retry_after = some 135 }; running = 0 })
Steps-Single_example = Steps-Single flight1

-- the address, as it was cached an hour less a minute ago
abbrev pub content1 : Content
content1 = record {
  id = 0;
  name = "www.example.org.";
  qtype = 1;
  qclass = 1;
  rcode = 0;
  authoritative = false;
  authenticated_data = false;
  recursion_available = true;
  answer = chain1;
  ns = [];
  extra = [];
  wildcard = "";
  answering = true;
  orig_ttl = 3600;
  stored = 1000000000;
}

abbrev pub bucket1 : List ℕ
bucket1 = 192 ∷ 0 ∷ 2 ∷ 0 ∷ 24 ∷ []

abbrev pub scope1 : ℕ → Scope
scope1 id = record { do_bit = false; cd = false; src = bucket1; epoch = 7 }

unfoldable pub key1 : ℕ
key1 = fnv64 (hash_input "www.example.org." 1 1 false false bucket1 7)

abbrev pub cache1 : Cache lib1
cache1 = record cache0 {
  pcache = λ k. if k == key1 then some (item content1) else none;
  next_id = 1;
}

cache1-Filed : Filed lib1 cache1 scope1
unfolding content last_known_good to_lower key1
cache1-Filed = (
  omega arith,
  λ k i e. absurd (cc e),
  λ k i e. elim (if_some (k == key1) (item content1) none i e) [
    | inl (at, same) ↦
        rw (← same, (nat_test_iff k key1).0 at)
          (
            record {
              numbered = omega arith;
              type_small = omega arith;
              class_small = omega arith;
              epoch_small = omega arith;
              keyed = refl;
            },
            λ g kept. absurd (cc kept),
          )
    | inr (f, nothing) ↦ absurd (cc nothing)
  ],
)

asked-IsQuery : IsQuery asked
unfolding to_lower
asked-IsQuery = record { lower_case = refl; type_small = omega arith; class_small = omega arith }

found1 : get_if_not_stale lib1 2000000000 asked bucket1 cache1 ≡ some (item content1)
unfolding get_if_not_stale hash lookup key1 fnv64 hash_input matches is_live ttl_at equal_fold
    to_lower content
found1 = refl

get_if_not_stale-Scope_example :
    (scope1 0 ≡ record { do_bit = false; cd = false; src = bucket1; epoch = 7 })
    ⊎ Collide (asked_bytes asked bucket1 7) (cached_bytes content1 (scope1 0))
unfolding content
get_if_not_stale-Scope_example =
    get_if_not_stale-Scope lib1 scope1 2000000000 asked bucket1 cache1 (item content1) asked-IsQuery
      cache1-Filed found1

looked_up1 : lookup lib1 key1 2000000000 asked cache1 ≡ some (item content1)
unfolding lookup key1 fnv64 hash_input matches is_live ttl_at equal_fold to_lower content
looked_up1 = refl

lookup-Found_example :
    Found lib1 cache1 key1 (item content1)
    × (matches content1 asked ≡ true)
    × InTime config1 (ttl_at content1 2000000000)
unfolding content
lookup-Found_example = lookup-Found lib1 key1 2000000000 asked cache1 (item content1) looked_up1
