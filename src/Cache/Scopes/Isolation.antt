-- ===== src/Cache/Scopes/Isolation.antt =====
-- hash (split-horizon-cache/cache.go) and getIfNotStale (handler.go): the scope of what is served.
use native.Mathlib.Decide.{ℕ_discrete}
use coredns_ez.Prelude.{
  ℕ, ◌^◌, ◌<◌, ◌≡◌, ◌≢◌, ◌⊎◌, sym, ap, ◌∙◌, inl, inr, true, some, List, arith, eq_iff, nat_tests,
  text_tests,
}
use coredns_ez.Dns.{to_lower}
use coredns_ez.Cache.Message.{equal_fold}
use coredns_ez.Cache.Keys.{hash, hash_input, fnv64}
use coredns_ez.Cache.Keys.Isolation.{hash_input-injective}
use coredns_ez.Cache.Item.{Request, Item, Content, content, matches}
use coredns_ez.Cache.State.{Library, Cache}
use coredns_ez.Cache.Lookup.{get_if_not_stale}
use coredns_ez.Cache.Lookup.Hits.{Found, in_ncache, in_pcache, kept_by, lookup-Found}
use coredns_ez.Cache.Scopes.{Scope, IsFiled, Filed}

-- what is hashed for a query at an epoch, and for a cached message with its scope
abbrev pub asked_bytes : Request → List ℕ → ℕ → List ℕ
asked_bytes q src epoch = hash_input q.name q.qtype q.qclass q.do_bit q.cd src epoch

abbrev pub cached_bytes : Content → Scope → List ℕ
cached_bytes c sc = hash_input (to_lower c.name) c.qtype c.qclass sc.do_bit sc.cd sc.src sc.epoch

-- FNV gives two different texts one hash
abbrev pub Collide : List ℕ → List ℕ → Type 0
Collide a b = (a ≢ b) × (fnv64 a ≡ fnv64 b)

bytes-discrete : Discrete (List ℕ)
bytes-discrete = hlevel ℕ_discrete

-- What request.Request promises of a query: Name() is the name in lower case, and the numbers are
-- 16-bit.
pub record IsQuery (q : Request) : Type 0 where
  pub lower_case : q.name ≡ to_lower q.qname
  pub type_small : q.qtype < 2 ^ 16
  pub class_small : q.qclass < 2 ^ 16

module _ (lib : Library) (origin : ℕ → Scope) where
  Found-IsFiled :
      (s : Cache lib) (k : ℕ) (i : Item)
      → Filed lib s origin
      → Found lib s k i
      → IsFiled origin s.next_id k (content i)
  Found-IsFiled s k i (epoch, in_n, in_p) (in_ncache e) = (in_n k i e).0
  Found-IsFiled s k i (epoch, in_n, in_p) (in_pcache e) = (in_p k i e).0
  Found-IsFiled s k i (epoch, in_n, in_p) (kept_by j e g) = (in_p k j e).1 i g

  matched :
      (c : Content) (q : Request)
      → IsQuery q
      → matches c q ≡ true
      → (q.qtype ≡ c.qtype) × (q.qclass ≡ c.qclass) × (q.name ≡ to_lower c.name)
  unfolding matches equal_fold
  matched c q ask e = (
    ground (arith, e),
    ground (arith, e),
    ask.lower_case ∙ (eq_iff (to_lower q.qname) (to_lower c.name)).0 (ground (arith, e)),
  )

  -- If the answers of a cache are filed under their questions, each in its scope, then an answer
  -- that is served from it was cached in the scope of the client that asks: with its DO and CD
  -- bits, for its part of the key, and at the epoch at hand; or else what is hashed for this query
  -- and what was hashed for this answer in its scope are two texts to which FNV gives one hash. The
  -- query's name is in lower case, and its type and class have 16 bits.
  pub get_if_not_stale-Scope :
      (now : ℕ) (q : Request) (src : List ℕ) (s : Cache lib) (i : Item)
      → IsQuery q
      → Filed lib s origin
      → get_if_not_stale lib now q src s ≡ some i
      → (origin (content i).id
          ≡ record { do_bit = q.do_bit; cd = q.cd; src = src; epoch = s.gen.epoch })
        ⊎ Collide (asked_bytes q src s.gen.epoch) (cached_bytes (content i) (origin (content i).id))
  unfolding get_if_not_stale hash
  get_if_not_stale-Scope now q src s i ask filed e =
      let asked = asked_bytes q src s.gen.epoch in
      let (found, matching, in_time) = lookup-Found lib (fnv64 asked) now q s i e in
      let own = Found-IsFiled s (fnv64 asked) i filed found in
      let c = content i in
      let sc = origin c.id in
      let (types, classes, names) = matched c q ask matching in
      let cached = cached_bytes c sc in
      elim (bytes-discrete asked cached) [
        | no differ ↦ inr (differ, own.keyed)
        | yes same ↦
            let same_name =
              same
              ∙ ap (λ n. hash_input n c.qtype c.qclass sc.do_bit sc.cd sc.src sc.epoch)
                  (sym names) in
            let (t, k, d, cd, src_same, epoch_same) =
              hash_input-injective q.name q.qtype c.qtype q.qclass c.qclass q.do_bit sc.do_bit q.cd
                sc.cd src sc.src s.gen.epoch sc.epoch ask.type_small own.type_small ask.class_small
                own.class_small filed.0 own.epoch_small same_name in
            inl (cc (d, cd, src_same, epoch_same))
      ]
