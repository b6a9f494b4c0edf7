-- ===== src/Cache/Handler.antt =====
-- split-horizon-cache/handler.go: ServeDNS and the refreshes it starts. The next plugin is a
-- function of the query: what it writes and when, when it ends, and the code that it returns. A
-- refresh in a goroutine is a task that runs later, and whether the verification ends before its
-- timer is an argument. The clock is read once by the handler and at the end of a refresh. Metadata
-- and metrics are left out.
pub mod Tasks
pub mod Wrote
pub mod Replies
pub mod Exceptions
pub mod Totality
use coredns_ez.Prelude.Options.{◌>>=◌}
use coredns_ez.Prelude.{
  ℕ, ◌+◌, ◌-◌, ◌*◌, ◌/◌, ◌%◌, ◌^◌, String, Bool, true, false, not, Option, none, some, List, [],
  ◌∷◌, ◌++◌, map, ◌&&◌, ◌||◌, ltb, leb, ◌==◌, nat_tests, text_tests, if◌then◌else◌, pos_part,
  neg_part,
}
use coredns_ez.Cache.Message.{Msg}
use coredns_ez.Cache.Keys.{key_src}
use coredns_ez.Cache.Item.{
  second, seconds32, Request, Content, Item, content, ttl_at, is_positive, to_msg, to_msg_with_ttl,
  Refresh, begin_refresh, end_refresh,
}
use coredns_ez.Cache.State.{Library, Config, Cache}
use coredns_ez.Cache.Writer.{Writer}
use coredns_ez.Cache.Verify.{VerifyWriter}
use coredns_ez.Cache.Lookup.{get_if_not_stale}
use coredns_ez.Cache.Handler.Tasks.{
  Upstream, Task, prefetching, verifying, write_all, verify_all, begin, finish, authenticated,
  new_writer, stale_writer, prefetch_writer, verify_writer, run_task,
}

-- What ServeDNS returns: what the next plugin returned, or a code of its own.
pub data Code : Type 0 where
  passed : ℕ → Code
  success : Code
  server_failure : Code

module _ (lib : Library) where
  open lib use {zone_of, set_reply, parse_ip, threshold, update_freq, hits}

  pub record Outcome : Type 0 where
    pub cache : Cache lib
    pub replies : List Msg
    pub code : Code
    pub task : Option Task

  -- The verification of a stale item answers the client, or the stale item is served.
  pub data Verified : Type 0 where
    answered : Cache lib → List Msg → Code → Verified
    unanswered : Cache lib → List Msg → Option Task → Verified

  -- a miss, or a query that is not for the cache
  pass_on : (Request → Upstream) → Request → Cache lib → Outcome
  pass_on next q s = record {
    cache = s;
    replies = map (λ (w : ℕ × Msg). w.1) (next q).writes;
    code = passed (next q).code;
    task = none;
  }

  unfoldable pub miss :
      (Request → Upstream) → String → Request → List ℕ → Cache lib → Option Outcome
  miss next wildcard q src s =
      let up = next (authenticated q) in
      let w = new_writer q src wildcard s.config.pexcept s.config.nexcept in
      do
        (s', w', out) ← write_all lib w up.writes s
        some (record { cache = s'; replies = out; code = passed up.code; task = none })

  -- endRefresh, if the refreshes of stale items are tracked
  tracked : Item → ℕ → Bool → Cache lib → Cache lib
  tracked i now refreshed s =
      let recheck = s.config.stale_recheck in
      if ltb 0 recheck then finish lib i now recheck refreshed s else s

  -- the branch without a timeout
  verify_now : (Request → Upstream) → VerifyWriter → Item → Cache lib → Option Verified
  unfolding tracked
  verify_now next v i s =
      let up = next v.inner.state in
      do
        (s', v', out) ← verify_all lib v up.writes s
        let s'' = tracked i up.ended v'.refreshed s'
        some (if v'.refreshed then answered s'' out (passed up.code) else unanswered s'' out none)

  -- what verifyWithTimeout sends of an accepted reply
  fresh_reply : Bool → Request → ℕ → VerifyWriter → Msg → Msg
  fresh_reply keepttl q now v response = elim v.kept [
    | none ↦ response
    | some i ↦
        to_msg (set_reply q) (content i) (if keepttl then (content i).stored else now) q.do_bit q.ad
  ]

  sent_as : Bool → Code
  sent_as fails = if fails then server_failure else success

  -- a reply that was accepted in time
  accepted : Bool → Request → Upstream → VerifyWriter → Cache lib → List Msg → Verified
  unfolding fresh_reply sent_as
  accepted fails q up v s out = elim v.response [
    | none ↦ answered s out (passed up.code)
    | some m ↦ answered s (out ++ fresh_reply s.config.keepttl q up.ended v m ∷ []) (sent_as fails)
  ]

  -- verifyWithTimeout; `fails` is whether the client's connection refuses the reply
  verify_in_time :
      (Request → Upstream) → Bool → VerifyWriter → Item → Request → Cache lib → Option Verified
  unfolding tracked accepted
  verify_in_time next fails v i q s =
      let up = next v.inner.state in
      do
        (s', v', out) ← verify_all lib v up.writes s
        let s'' = tracked i up.ended v'.refreshed s'
        some (if v'.refreshed then accepted fails q up v' s'' out else unanswered s'' out none)

  -- the part for verify_stale
  unfoldable pub verify_stale :
      (Request → Upstream) → Bool → Bool → ℕ → Item → Request → List ℕ → Cache lib → Option Verified
  unfolding verify_now verify_in_time
  verify_stale next in_time fails now i q src s =
      let track = ltb 0 s.config.stale_recheck in
      let (begun, free) = begin lib i now s.config.stale_recheck s in
      let s' = if track then begun else s in
      let may = if track then free else true in
      let timed = ltb 0 s.config.verify_stale_timeout in
      let v = verify_writer (stale_writer q src timed) in
      if not may
      then some (unanswered s' [] none)
      else if not timed
      then verify_now next v i s'
      else if in_time
      then verify_in_time next fails v i q s'
      else some (unanswered s' [] (some (verifying v i s'.config.stale_recheck)))

  unfoldable pub try_prefetch :
      Item → Request → List ℕ → ℕ → ℕ → Bool → Cache lib → Cache lib × Option Task
  try_prefetch i q src clock now stale s = elim (parse_ip q.ip) [
    | none ↦ (s, none)
    | some ip ↦
        let recheck = if stale then s.config.stale_recheck else 0 in
        let (s', may) = begin lib i clock recheck s in
        if may
        then (s', some (prefetching (prefetch_writer q src) i now stale recheck))
        else (s', none)
  ]

  unfoldable pub should_prefetch : Content → ℕ → Cache lib → Cache lib × Bool
  should_prefetch i now s =
      let f = update_freq s.config.duration now (s.freqs i.id) in
      if s.config.prefetch == 0 then (s, false) else (
        record s { freqs = λ k. if k == i.id then f else s.freqs k },
        leb s.config.prefetch (hits f)
            && leb (pos_part (ttl_at i now)) (threshold s.config.percentage i.orig_ttl),
      )

  -- the reply made of an item
  unfoldable pub item_reply : Config → Request → Content → Bool → ℕ → Msg
  item_reply c q i stale now =
      if stale && ltb 0 c.stale_ttl
      then to_msg_with_ttl (set_reply q) i (seconds32 c.stale_ttl) q.do_bit q.ad
      else to_msg (set_reply q) i (if c.keepttl then i.stored else now) q.do_bit q.ad

  -- the end of ServeDNS for a hit
  reply_with : Item → Request → Bool → ℕ → List Msg → Cache lib → Option Task → Outcome
  reply_with i q stale now out s task = record {
    cache = s;
    replies = out ++ item_reply s.config q (content i) stale now ∷ [];
    code = success;
    task = task;
  }

  unfoldable pub serve_fresh : Item → Request → List ℕ → ℕ → Cache lib → Outcome
  unfolding reply_with
  serve_fresh i q src now s =
      let (s', wanted) = should_prefetch (content i) now s in
      let (s'', task) = try_prefetch i q src now now false s' in
      if wanted then reply_with i q false now [] s'' task else reply_with i q false now [] s' none

  after_verify : Item → Request → ℕ → Verified → Outcome
  unfolding reply_with
  after_verify i q now (answered s out code) = record {
    cache = s;
    replies = out;
    code = code;
    task = none;
  }
  after_verify i q now (unanswered s out task) = reply_with i q true now out s task

  unfoldable pub serve_stale :
      (Request → Upstream) → Bool → Bool → Item → Request → List ℕ → ℕ → Cache lib → Option Outcome
  unfolding reply_with after_verify
  serve_stale next in_time fails i q src now s =
      let now' = now - neg_part (ttl_at (content i) now) * second in
      let (s', task) = try_prefetch i q src now now' true s in
      if s.config.verify_stale
      then (verify_stale next in_time fails now i q src s >>= λ verified.
          some (after_verify i q now' verified))
      else some (reply_with i q true now' [] s' task)

  -- the answer from an item, or from the next plugin
  serve_item :
      (Request → Upstream)
      → Bool
      → Bool
      → String
      → ℕ
      → Request
      → List ℕ
      → Cache lib
      → Option Item
      → Option Outcome
  serve_item next in_time fails wildcard now q src s none = miss next wildcard q src s
  serve_item next in_time fails wildcard now q src s (some i) =
      if is_positive (ttl_at (content i) now)
      then some (serve_fresh i q src now s)
      else serve_stale next in_time fails i q src now s

  -- a client without a part of the key is not served from the cache
  serve_keyed :
      (Request → Upstream)
      → Bool
      → Bool
      → String
      → ℕ
      → Request
      → List ℕ
      → Cache lib
      → Option Outcome
  unfolding pass_on serve_item
  serve_keyed next in_time fails wildcard now q [] s = some (pass_on next q s)
  serve_keyed next in_time fails wildcard now q (b ∷ bs) s =
      serve_item next in_time fails wildcard now q (b ∷ bs) s
        (get_if_not_stale lib now q (b ∷ bs) s)

  unfoldable pub serve_dns :
      (Request → Upstream) → Bool → Bool → String → ℕ → Request → Cache lib → Option Outcome
  unfolding pass_on serve_keyed
  serve_dns next in_time fails wildcard now q s =
      if zone_of s.config.zones q.name == ""
      then some (pass_on next q s)
      else serve_keyed next in_time fails wildcard now q
          (key_src parse_ip s.gen s.config.masks q.ip) s
