-- ===== src/Cache/Lookup.antt =====
-- split-horizon-cache/handler.go: getIfNotStale and exists.
pub mod Hits
use coredns_ez.Prelude.{
  ℕ, ◌/◌, String, Bool, true, false, Option, none, some, List, ◌&&◌, ◌||◌, ltb, ◌==◌, nat_tests,
  if◌then◌else◌, ℤ,
}
use coredns_ez.Cache.Message.{rcode_server_failure}
use coredns_ez.Cache.Keys.{hash}
use coredns_ez.Cache.Item.{
  second, Request, Item, content, ttl_at, is_positive, is_within, matches, answering_item,
}
use coredns_ez.Cache.State.{Library, Config, Cache}

-- has a TTL left, or is not too stale to be served
unfoldable pub is_live : Config → ℤ → Bool
is_live c t = is_positive t || (ltb 0 c.stale_up_to && is_within (c.stale_up_to / second) t)

module _ (lib : Library) where
  open lib use {get}

  if_answering : Config → ℕ → Option Item → Option Item
  if_answering c now none = none
  if_answering c now (some good) =
      let t = ttl_at (content good) now in
      if is_positive t || is_within (c.stale_up_to / second) t then some good else none

  -- what prefer_positive finds
  preferred : Config → Request → ℕ → Option Item → Option Item
  unfolding if_answering
  preferred c q now none = none
  preferred c q now (some i) = if_answering c now (answering_item i q)

  -- an item that fits the question and is live
  if_live : Config → Request → ℕ → Option Item → Option Item
  if_live c q now none = none
  if_live c q now (some i) =
      if matches (content i) q && is_live c (ttl_at (content i) now) then some i else none

  -- a SERVFAIL does not shadow a positive item
  behind_failure : Item → Option Item → Option Item
  behind_failure i none = some i
  behind_failure i (some p) = if (content i).rcode == rcode_server_failure then some p else some i

  denied : Option Item → Option Item → Option Item
  unfolding behind_failure
  denied none p = p
  denied (some i) p = behind_failure i p

  unfoldable pub lookup : ℕ → ℕ → Request → Cache lib → Option Item
  unfolding preferred if_live denied
  lookup k now q s =
      let usual =
        denied (if_live s.config q now (get k s.ncache))
          (if_live s.config q now (get k s.pcache)) in
      if s.config.prefer_positive && ltb 0 s.config.stale_up_to
      then (elim (preferred s.config q now (get k s.pcache)) [ some i ↦ some i | none ↦ usual ])
      else usual

  unfoldable pub get_if_not_stale : ℕ → Request → List ℕ → Cache lib → Option Item
  get_if_not_stale now q src s =
      lookup (hash s.gen q.name q.qtype q.qclass q.do_bit q.cd src) now q s

  unfoldable pub exists : String → ℕ → ℕ → Bool → Bool → List ℕ → Cache lib → Option Item
  exists name qtype qclass do_bit cd src s =
      let k = hash s.gen name qtype qclass do_bit cd src in
      elim (get k s.ncache) [ some i ↦ some i | none ↦ get k s.pcache ]
