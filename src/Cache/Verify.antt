-- ===== src/Cache/Verify.antt =====
-- split-horizon-cache/cache.go: WriteMsg of verifyStaleResponseWriter, which passes a reply on to
-- the client only if it should replace a stale one.
pub mod Wrote
pub mod Guards
pub mod Totality
use coredns_ez.Prelude.Options.{◌>>=◌}
use coredns_ez.Prelude.{
  ℕ, Bool, true, false, not, Option, none, some, List, [], ◌∷◌, ◌&&◌, ◌||◌, ◌==◌, nat_tests,
  if◌then◌else◌,
}
use coredns_ez.Cache.Message.{Msg, usable_answer, rcode_success, rcode_name_error}
use coredns_ez.Cache.Keys.{is_uncached}
use coredns_ez.Cache.Item.{Item}
use coredns_ez.Cache.State.{Library, Cache}
use coredns_ez.Cache.Writer.{Writer, write_msg}

pub record VerifyWriter : Type 0 where
  pub inner : Writer
  pub refreshed : Bool
  pub response : Option Msg
  pub kept : Option Item

module _ (lib : Library) where
  open lib use {typify, match_reply}

  forward : VerifyWriter → ℕ → Msg → Cache lib → Option (Cache lib × VerifyWriter × List Msg)
  forward v now res s = do
    (s', w, out) ← write_msg lib v.inner now res s
    some (
      s',
      record { inner = w; refreshed = true; response = w.last_response; kept = w.last_item },
      out,
    )

  -- the write of a reply that is only to be cached
  cache_only : VerifyWriter → ℕ → Msg → Cache lib → Option (Cache lib × VerifyWriter × List Msg)
  cache_only v now res s = do
    (s', w, out) ← write_msg lib (record v.inner { prefetch = true }) now res s
    some (s', record v { inner = record w { prefetch = v.inner.prefetch } }, out)

  unfoldable pub verify_write_msg :
      VerifyWriter → ℕ → Msg → Cache lib → Option (Cache lib × VerifyWriter × List Msg)
  unfolding forward cache_only
  verify_write_msg v now res s =
      let v' : VerifyWriter = record {
        inner = v.inner;
        refreshed = false;
        response = none;
        kept = none;
      } in
      if res.truncated || not (match_reply v.inner.state res)
      then some (s, v', [])
      else if s.config.prefer_positive
      then if usable_answer typify res now then forward v' now res s else cache_only v' now res s
      else if is_uncached (typify res now)
      then some (s, v', [])
      else if not (res.rcode == rcode_success) && not (res.rcode == rcode_name_error)
      then some (s, v', [])
      else forward v' now res s
