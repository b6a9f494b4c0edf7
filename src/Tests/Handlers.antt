-- ===== src/Tests/Handlers.antt =====
-- Replies that the cache writes, what its handler does with them, and refreshes.
use coredns_ez.Prelude.{
  ◌≡◌, refl, sym, inl, inr, String, true, false, none, some, List, [], ◌∷◌, arith, eq_iff, ◌==◌,
  nat_tests, text_tests, if_some, nat_test_iff,
}
use coredns_ez.Dns.{to_lower}
use coredns_ez.Cache.Message.{Question, Msg}
use coredns_ez.Cache.Keys.{is_uncached, key_src}
use coredns_ez.Cache.Item.{Request, Item, item}
use coredns_ez.Cache.State.{Cache}
use coredns_ez.Cache.Writer.{Writer}
use coredns_ez.Cache.Verify.{verify_write_msg}
use coredns_ez.Cache.Verify.Guards.{Guarded, verify_write_msg-Guarded}
use coredns_ez.Cache.Handler.Tasks.{
  Upstream, Task, prefetching, authenticated, prefetch_writer, verify_writer, run_task,
}
use coredns_ez.Cache.Handler.Tasks.Wrote.{AllWire}
use coredns_ez.Cache.Handler.Tasks.Totality.{AllAsked, run_task-Total}
use coredns_ez.Cache.Handler.Totality.{serve_dns-Total}
use coredns_ez.Cache.Handler.Wrote.{scope_for, serve_dns-Filed}
use coredns_ez.Cache.Handler.{Outcome, serve_dns}
use coredns_ez.Cache.Scopes.{Filed, Laws, FirstNamed, since}
use coredns_ez.Tests.Caches.{
  names_match, empty_msg, lib1, config1, gen0, cache0, asked, chain1, content1, bucket1, scope1,
  cache1,
}

-- the address again, from the next plugin
abbrev reply1 : Msg
reply1 = record empty_msg {
  question = record { name = "www.example.org."; qtype = 1; qclass = 1 } ∷ [];
  answer = chain1;
}

abbrev writer1 : Writer
writer1 = record {
  state = record asked { ad = true };
  do_bit = false;
  cd = false;
  ad = false;
  prefetch = false;
  src = bucket1;
  wildcard = none;
  last_response = none;
  last_item = none;
  pexcept = [];
  nexcept = [];
}

laws1 : Laws lib1
laws1 = record {
  get-add = λ j k i x st e. elim (if_some (j == k) i (st j) x e) [
    | inl (at, same) ↦ inl ((nat_test_iff j k).0 at, sym same)
    | inr (f, before) ↦ inr before
  ];
  get-remove = λ j k x st e. ground (arith, e, nat_test_iff j k);
  match_named = λ q m e. named q.name m.question e;
}
  where
    named : (name : String) (qs : List Question) → names_match name qs ≡ true → FirstNamed name qs
    named name [] e = tt
    named name (q ∷ qs) e = (eq_iff (to_lower q.name) name).0 e

question1 : Question
question1 = record { name = "www.example.org."; qtype = 1; qclass = 1 }

-- another server's refusal, which does not replace a stale item
refused1 : Msg
refused1 = record reply1 { rcode = 5; answer = [] }

ignored1 :
    verify_write_msg lib1 (verify_writer writer1) 2000000000 refused1 cache0
    ≡ some (cache0, verify_writer writer1, [])
unfolding verify_write_msg verify_writer refused1 is_uncached to_lower
ignored1 = refl

verify_write_msg-Guarded_example :
    Guarded lib1 cache0
      (verify_writer writer1)
      2000000000
      refused1
      (cache0, verify_writer writer1, [])
verify_write_msg-Guarded_example =
    verify_write_msg-Guarded lib1 (verify_writer writer1) 2000000000 refused1 cache0
      (cache0, verify_writer writer1, []) ignored1

-- the next plugin's answer, a second after the query
abbrev next1 : Request → Upstream
next1 q = record { writes = (3000000000, reply1) ∷ []; ended = 3100000000; code = 0 }

next1-asked : (q : Request) → AllAsked (next1 q).writes
next1-asked q = (λ e. cc e, tt)

next1-wire : (q : Request) → AllWire (next1 q).writes
next1-wire q = (((omega arith, omega arith), tt), tt)

serve_dns-Total_example :
    (o : Outcome lib1) × (serve_dns lib1 next1 true false "" 2000000000 asked cache0 ≡ some o)
serve_dns-Total_example =
    serve_dns-Total lib1 next1 true false asked (next1-asked (authenticated asked)) "" 2000000000
      cache0

-- the outcome of the miss
served1 : (o : Outcome lib1) × (serve_dns lib1 next1 true false "" 2000000000 asked cache0 ≡ some o)
served1 =
    serve_dns-Total lib1 next1 true false asked (next1-asked (authenticated asked)) "" 2000000000
      cache0

cache0-Filed : Filed lib1 cache0 scope1
cache0-Filed = (omega arith, λ k i e. absurd (cc e), λ k i e. absurd (cc e))

serve_dns-Filed_example : Filed lib1 served1.0.cache (
    since 0
      (scope_for lib1 laws1 scope1 next1 true false asked
        (key_src lib1.parse_ip gen0 config1.masks "192.0.2.1")
        cache0)
      scope1)
serve_dns-Filed_example =
    serve_dns-Filed lib1 laws1 scope1 next1 true false asked "" 2000000000 cache0 served1.0
      cache0-Filed (next1-wire (authenticated asked)) served1.1

-- a prefetch of the cached address
abbrev task1 : Task
task1 = prefetching (prefetch_writer asked bucket1) (item content1) 2000000000 false 0

ran1 : (s : Cache lib1) × (run_task lib1 next1 task1 cache1 ≡ some s)
ran1 = run_task-Total lib1 next1 task1 cache1 (next1-asked (prefetch_writer asked bucket1).state)

-- the cache, with answers for example.org excepted
abbrev excepting : Cache lib1
excepting = record cache0 { config = record config1 { pexcept = "example.org." ∷ [] } }
