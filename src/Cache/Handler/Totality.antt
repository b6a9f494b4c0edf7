-- ===== src/Cache/Handler/Totality.antt =====
-- ServeDNS (split-horizon-cache/handler.go) and the panics in it.
use coredns_ez.Prelude.Options.{Total, bind-Total}
use coredns_ez.Prelude.{
  ℕ, ◌≡◌, refl, String, Bool, not, Option, none, some, List, [], ◌∷◌, ltb, ◌==◌, text_tests,
  if◌then◌else◌, if-cases,
}
use coredns_ez.Cache.Keys.{key_src}
use coredns_ez.Cache.Item.{Request, Item, content, ttl_at, is_positive}
use coredns_ez.Cache.State.{Library, Cache}
use coredns_ez.Cache.Handler.Tasks.{
  Upstream, Task, authenticated, new_writer, stale_writer, verify_writer, verify_all,
}
use coredns_ez.Cache.Handler.Tasks.Totality.{AllAsked, write_all-Total, verify_all-Total}
use coredns_ez.Cache.Handler.{
  Outcome, Verified, unanswered, pass_on, miss, serve_fresh, verify_now, verify_in_time,
  verify_stale, serve_stale, serve_item, serve_keyed, serve_dns,
}

module _ (lib : Library) (next : Request → Upstream) (in_time fails : Bool) (q : Request)
    (h : AllAsked (next (authenticated q)).writes) where
  open lib use {zone_of, parse_ip}

  miss-Total :
      (wildcard : String) (src : List ℕ) (s : Cache lib) → Total (miss lib next wildcard q src s)
  unfolding miss
  miss-Total wildcard src s =
      bind-Total _ _
        (write_all-Total lib (new_writer q src wildcard s.config.pexcept s.config.nexcept)
          (next (authenticated q)).writes s h)
        (λ r. (_, refl))

  -- the verification, from any state of the cache
  verified-Total :
      (may timed : Bool) (i : Item) (src : List ℕ) (s : Cache lib) (task : Option Task)
      → Total {A = Verified lib} (
          if not may
          then some (unanswered s [] none)
          else if not timed
          then verify_now lib next (verify_writer (stale_writer q src timed)) i s
          else if in_time
          then verify_in_time lib next fails (verify_writer (stale_writer q src timed)) i q s
          else some (unanswered s [] task))
  unfolding verify_now verify_in_time verify_writer stale_writer
  verified-Total may timed i src s task =
      let P = λ (o : Option (Verified lib)). Total o in
      let v = verify_writer (stale_writer q src timed) in
      let up = next (authenticated q) in
      let done = verify_all-Total lib v up.writes s h in
      let now_done : Total (verify_now lib next v i s) =
        bind-Total (verify_all lib v up.writes s) _ done (λ r. (_, refl)) in
      let in_time_done : Total (verify_in_time lib next fails v i q s) =
        bind-Total (verify_all lib v up.writes s) _ done (λ r. (_, refl)) in
      if-cases P (not may) _ _ (λ _. (unanswered s [] none, refl))
        (λ _.
          if-cases P (not timed) _ _ (λ _. now_done)
            (λ _. if-cases P in_time _ _ (λ _. in_time_done) (λ _. (unanswered s [] task, refl))))

  verify_stale-Total :
      (now : ℕ) (i : Item) (src : List ℕ) (s : Cache lib)
      → Total (verify_stale lib next in_time fails now i q src s)
  unfolding verify_stale
  verify_stale-Total now i src s = verified-Total _ (ltb 0 s.config.verify_stale_timeout) i src _ _

  serve_item-Total :
      (wildcard : String) (now : ℕ) (src : List ℕ) (s : Cache lib) (found : Option Item)
      → Total (serve_item lib next in_time fails wildcard now q src s found)
  unfolding serve_item serve_stale
  serve_item-Total wildcard now src s none = miss-Total wildcard src s
  serve_item-Total wildcard now src s (some i) =
      let P = λ (o : Option (Outcome lib)). Total o in
      if-cases P (is_positive (ttl_at (content i) now)) (some (serve_fresh lib i q src now s))
        (serve_stale lib next in_time fails i q src now s)
        (λ _. (serve_fresh lib i q src now s, refl))
        (λ _.
          if-cases P s.config.verify_stale _ _
            (λ _.
              bind-Total (verify_stale lib next in_time fails now i q src s) _
                (verify_stale-Total now i src s) (λ r. (_, refl)))
            (λ _. (_, refl)))

  serve_keyed-Total :
      (wildcard : String) (now : ℕ) (src : List ℕ) (s : Cache lib)
      → Total (serve_keyed lib next in_time fails wildcard now q src s)
  unfolding serve_keyed
  serve_keyed-Total wildcard now [] s = (_, refl)
  serve_keyed-Total wildcard now (b ∷ bs) s = serve_item-Total wildcard now (b ∷ bs) s _

  -- If every reply that the next plugin writes has a question, then ServeDNS ends with an outcome,
  -- on a miss, a hit and a stale item, whatever the configuration: nothing panics.
  pub serve_dns-Total :
      (wildcard : String) (now : ℕ) (s : Cache lib)
      → (o : Outcome lib) × (serve_dns lib next in_time fails wildcard now q s ≡ some o)
  unfolding serve_dns pass_on
  serve_dns-Total wildcard now s =
      if-cases (λ (o : Option (Outcome lib)). Total o) (zone_of s.config.zones q.name == "")
        (some (pass_on lib next q s))
        (serve_keyed lib next in_time fails wildcard now q
          (key_src parse_ip s.gen s.config.masks q.ip) s)
        (λ _. (pass_on lib next q s, refl))
        (λ _. serve_keyed-Total wildcard now (key_src parse_ip s.gen s.config.masks q.ip) s)
