-- ===== src/Cache/Handler/Replies.antt =====
-- The TTL of what ServeDNS answers from the cache.
use mathlib.Core.Path.{subst}
use coredns_ez.Prelude.{
  ℕ, ◌+◌, ◌-◌, ◌*◌, ◌/◌, ◌^◌, ◌≤◌, ◌<◌, ◌≡◌, true, false, ltb, arith, nat_tests, neg_part, to_u32,
  if-cases,
}
use coredns_ez.Cache.Item.{
  second, seconds32, Request, Content, ttl_at, is_positive, to_msg, to_msg_with_ttl,
}
use coredns_ez.Cache.Item.Ttl.{AllAged, to_msg_with_ttl-Aged, ttl_at-fresh, ttl_at-stale}
use coredns_ez.Cache.State.{Library, Config}
use coredns_ez.Cache.Handler.{item_reply}

module _ (lib : Library) where
  open lib use {set_reply}

  -- An item that has a TTL left is served with exactly that on every record, from 1 up to the TTL
  -- it was stored with, if the cache does not keep TTLs: the TTL and the whole seconds since it was
  -- stored make up the original one.
  pub item_reply-fresh :
      (c : Config) (q : Request) (i : Content) (now : ℕ)
      → c.keepttl ≡ false
      → i.stored ≤ now
      → i.orig_ttl < 2 ^ 32
      → is_positive (ttl_at i now) ≡ true
      → (ttl : ℕ) × AllAged ttl (item_reply lib c q i false now)
        × (1 ≤ ttl)
        × (ttl + (now - i.stored) / second ≡ i.orig_ttl)
  unfolding item_reply to_msg
  item_reply-fresh c q i now keep h small e =
      let (whole, positive) = ttl_at-fresh i now h small e in
      (
        to_u32 (ttl_at i now),
        rw keep (to_msg_with_ttl-Aged (set_reply q) i (to_u32 (ttl_at i now)) q.do_bit q.ad),
        positive,
        whole,
      )

  -- A stale item is served with the TTL that is configured for stale answers, in seconds, on every
  -- record, which is 0 where none is configured, if the cache does not keep TTLs.
  pub item_reply-stale :
      (c : Config) (q : Request) (i : Content) (now : ℕ)
      → c.keepttl ≡ false
      → i.stored ≤ now
      → is_positive (ttl_at i now) ≡ false
      → AllAged
          (seconds32 c.stale_ttl)
          (item_reply lib c q i true (now - neg_part (ttl_at i now) * second))
  unfolding item_reply to_msg
  item_reply-stale c q i now keep h e =
      let then_on = now - neg_part (ttl_at i now) * second in
      let zero_left = ttl_at-stale i now h e in
      if-cases (AllAged (seconds32 c.stale_ttl)) (ltb 0 c.stale_ttl) _ _
        (λ _. to_msg_with_ttl-Aged (set_reply q) i (seconds32 c.stale_ttl) q.do_bit q.ad)
        (λ unset.
          let no_ttl : to_u32 (ttl_at i then_on) ≡ seconds32 c.stale_ttl =
            ground (arith, unset, zero_left) in
          rw keep (
            subst
              (λ (t : ℕ).
                AllAged t
                  (to_msg_with_ttl (set_reply q) i (to_u32 (ttl_at i then_on)) q.do_bit q.ad))
              no_ttl
              (to_msg_with_ttl-Aged (set_reply q) i (to_u32 (ttl_at i then_on)) q.do_bit q.ad)))
