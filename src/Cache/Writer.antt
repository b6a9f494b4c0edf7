-- ===== src/Cache/Writer.antt =====
-- split-horizon-cache/cache.go: WriteMsg of ResponseWriter, with `set`. The clock is read once in a
-- call. An `Option` is `none` after a panic.
pub mod Filed
pub mod Wrote
pub mod Replies
pub mod Hit
pub mod Totality
use Prim.Native.Nat.{min, max}
use coredns_ez.Prelude.Options.{◌>>=◌}
use coredns_ez.Prelude.{
  ℕ, suc, ◌+◌, String, Bool, true, false, not, Option, none, some, List, [], ◌∷◌, ◌++◌, ◌&&◌, ◌||◌,
  ltb, ◌==◌, nat_tests, text_tests, if◌then◌else◌,
}
use coredns_ez.Cache.State.{Library, Config, Cache}
use coredns_ez.Cache.Message.{
  Question, Msg, ResponseType, no_error, name_error, server_error, no_data, delegation, meta,
  update, other_error, cache_response_type, usable_answer, answers_question, rcode_success,
  rcode_name_error,
}
use coredns_ez.Cache.Keys.{Key, unstored, stored, panic, key, Masks, is_uncached}
use coredns_ez.Cache.Item.{
  second, seconds32, Request, Content, Item, item, item_after, content, with_good, filter_rr_slice,
  new_item, answering_item, Refresh, unrefreshed,
}

unfoldable pub compute_ttl : ℕ → ℕ → ℕ → ℕ
compute_ttl msg_ttl min_ttl max_ttl = min (max msg_ttl min_ttl) max_ttl

-- ResponseWriter, without the Cache that it embeds. `wildcard` is what wildcardFunc returns, if
-- there is one.
pub record Writer : Type 0 where
  pub state : Request
  pub do_bit : Bool
  pub cd : Bool
  pub ad : Bool
  pub prefetch : Bool
  pub src : List ℕ
  pub wildcard : Option String
  pub last_response : Option Msg
  pub last_item : Option Item
  pub pexcept : List String
  pub nexcept : List String

-- min(max(…)) by response type, in the switch of WriteMsg
duration_for : Config → (ℕ → ℕ) → ResponseType → ℕ
duration_for c ttl name_error = compute_ttl (ttl c.nttl) c.minnttl c.nttl
duration_for c ttl no_data = compute_ttl (ttl c.nttl) c.minnttl c.nttl
duration_for c ttl server_error = c.failttl
duration_for c ttl no_error = compute_ttl (ttl c.pttl) c.minpttl c.pttl
duration_for c ttl delegation = compute_ttl (ttl c.pttl) c.minpttl c.pttl
duration_for c ttl meta = compute_ttl (ttl c.pttl) c.minpttl c.pttl
duration_for c ttl update = compute_ttl (ttl c.pttl) c.minpttl c.pttl
duration_for c ttl other_error = compute_ttl (ttl c.pttl) c.minpttl c.pttl

unfoldable pub first_name : List Question → String
first_name [] = ""
first_name (q ∷ qs) = q.name

with_wildcard : Option String → Content → Content
with_wildcard none i = i
with_wildcard (some w) i = record i { wildcard = w }

-- the reply with the TTL under which it is kept
unfoldable pub capped : ℕ → Msg → Msg
capped ttl m = record m {
  answer = filter_rr_slice m.answer ttl;
  ns = filter_rr_slice m.ns ttl;
  extra = filter_rr_slice m.extra ttl;
}

module _ (lib : Library) where
  open lib use {get, add, remove, new_freq, typify, minimal_ttl, match_reply, zone_of}

  -- the memory of a new item
  allocate : Cache lib → Cache lib
  allocate s = record s {
    refreshes = λ k. if k == s.next_id then unrefreshed else s.refreshes k;
    freqs = λ k. if k == s.next_id then new_freq else s.freqs k;
    next_id = suc s.next_id;
  }

  good_before : Option Item → Request → Option Item
  good_before none q = none
  good_before (some previous) q = answering_item previous q

  -- the success case of `set`
  set_success : Writer → ℕ → Msg → ℕ → ℕ → Cache lib → Cache lib × Writer
  unfolding allocate good_before with_wildcard
  set_success w now m k duration s =
      let i = with_wildcard w.wildcard (new_item s.next_id m now duration) in
      let keeps = s.config.prefer_positive && not i.answering in
      let full = with_good (if keeps then good_before (get k s.pcache) w.state else none) i in
      let drops =
        (not s.config.prefer_positive && w.prefetch) || (s.config.prefer_positive && i.answering) in
      (
        record (allocate s) {
          pcache = add k full s.pcache;
          ncache = if drops then remove k s.ncache else s.ncache;
        },
        record w { last_item = some full },
      )

  -- the denial case of `set`
  set_denial : Writer → ℕ → Msg → ℕ → ℕ → Cache lib → Cache lib × Writer
  unfolding allocate with_wildcard
  set_denial w now m k duration s =
      let i = item (with_wildcard w.wildcard (new_item s.next_id m now duration)) in
      (record (allocate s) { ncache = add k i s.ncache }, record w { last_item = some i })

  excepted : List String → Msg → Bool
  unfolding first_name
  excepted zones m = not (zone_of zones (first_name m.question) == "")

  unfoldable pub set : Writer → ℕ → Msg → ℕ → ResponseType → ℕ → Cache lib → Cache lib × Writer
  unfolding set_success set_denial excepted
  set w now m k no_error duration s =
      if excepted w.pexcept m then (s, w) else set_success w now m k duration s
  set w now m k delegation duration s =
      if excepted w.pexcept m then (s, w) else set_success w now m k duration s
  set w now m k name_error duration s =
      if excepted w.nexcept m then (s, w) else set_denial w now m k duration s
  set w now m k no_data duration s =
      if excepted w.nexcept m then (s, w) else set_denial w now m k duration s
  set w now m k server_error duration s =
      if excepted w.nexcept m then (s, w) else set_denial w now m k duration s
  set w now m k other_error duration s = (s, w)
  set w now m k meta duration s = (s, w)
  set w now m k update duration s = (s, w)

  store_reply : Writer → ℕ → Msg → Key → ResponseType → ℕ → Cache lib → Option (Cache lib × Writer)
  unfolding set
  store_reply w now m panic t duration s = none
  store_reply w now m unstored t duration s = some (s, w)
  store_reply w now m (stored k) t duration s =
      if ltb 0 duration && match_reply w.state m
      then some (set w now m k t duration s)
      else some (s, w)

  unfoldable pub duration_of : Config → Msg → ResponseType → ℕ
  unfolding duration_for
  duration_of c m t = duration_for c (minimal_ttl m t) t

  -- the reply as the client gets it
  unfoldable pub adjusted : Writer → Config → Msg → ResponseType → Msg
  adjusted w c m t =
      let m' = capped (seconds32 (duration_of c m t)) m in
      if not w.do_bit && not w.ad then record m' { authenticated_data = false } else m'

  -- WriteMsg at a time: the cache, the writer, and what goes to the client.
  unfoldable pub write_msg : Writer → ℕ → Msg → Cache lib → Option (Cache lib × Writer × List Msg)
  unfolding store_reply
  write_msg w now res s =
      let t = cache_response_type typify res now in
      let k = key s.gen w.state.name res t w.do_bit w.cd w.src in
      let d = duration_of s.config res t in
      let reply = adjusted w s.config res t in
      do
        (s', w') ←
            store_reply (record w { last_item = none }) now (capped (seconds32 d) res) k t d s
        some (s', record w' { last_response = some reply }, if w.prefetch then [] else reply ∷ [])
