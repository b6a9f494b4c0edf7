-- ===== src/Cache/Writer/Replies.antt =====
-- The TTL that WriteMsg gives to a reply, and to the item that it stores.
use mathlib.Core.Path.{subst}
use coredns_ez.Prelude.Options.{bind_some, some_injective}
use coredns_ez.Prelude.{ℕ, ◌≡◌, refl, true, none, some, List, [], nat_tests}
use coredns_ez.Cache.Message.{
  Msg, ResponseType, name_error, server_error, no_data, cache_response_type,
}
use coredns_ez.Cache.Keys.{stored, key}
use coredns_ez.Cache.Item.{Item, content, seconds32}
use coredns_ez.Cache.State.{Library, Config, Cache}
use coredns_ez.Cache.Writer.{Writer, duration_of, capped, write_msg, store_reply}

-- the lowest and the highest duration that the configuration allows for a type of response
abbrev pub lowest : Config → ResponseType → ℕ
lowest c name_error = c.minnttl
lowest c no_data = c.minnttl
lowest c server_error = c.failttl
lowest c _ = c.minpttl

abbrev pub highest : Config → ResponseType → ℕ
highest c name_error = c.nttl
highest c no_data = c.nttl
highest c server_error = c.failttl
highest c _ = c.pttl

module _ (lib : Library) where
  open lib use {typify}

  -- an item that is stored now for a duration
  abbrev Stamped : ℕ → ℕ → Cache lib × Writer → Type 0
  Stamped now d p =
      (i : Item)
      → p.1.last_item ≡ some i
      → ((content i).orig_ttl ≡ seconds32 d) × ((content i).stored ≡ now)

  -- a prefetching writer sends nothing
  pub write_msg-silent :
      (w : Writer) (now : ℕ) (res : Msg) (s : Cache lib) (r : Cache lib × Writer × List Msg)
      → w.prefetch ≡ true
      → write_msg lib w now res s ≡ some r
      → r.2 ≡ []
  unfolding write_msg duration_of
  write_msg-silent w now res s r quiet e =
      let t = cache_response_type typify res now in
      let d = duration_of lib s.config res t in
      let k = key s.gen w.state.name res t w.do_bit w.cd w.src in
      let (p, done, ends) =
        bind_some
          (store_reply lib (record w { last_item = none }) now (capped (seconds32 d) res) k t d s) _
          r e in
      subst (λ (x : Cache lib × Writer × List Msg). x.2 ≡ []) {y = r} (some_injective ends)
        (rw quiet refl)
