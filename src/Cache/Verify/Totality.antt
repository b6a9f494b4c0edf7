-- ===== src/Cache/Verify/Totality.antt =====
-- WriteMsg of verifyStaleResponseWriter (split-horizon-cache/cache.go) and the panics in it.
use coredns_ez.Prelude.Options.{Total, bind-Total}
use coredns_ez.Prelude.{
  ℕ, refl, true, false, not, Option, none, List, ◌&&◌, ◌||◌, ◌==◌, nat_tests, if-cases,
}
use coredns_ez.Cache.Message.{Msg, usable_answer, rcode_success, rcode_name_error}
use coredns_ez.Cache.Keys.{is_uncached}
use coredns_ez.Cache.State.{Library, Cache}
use coredns_ez.Cache.Writer.Totality.{HasQuestion, write_msg-Total}
use coredns_ez.Cache.Verify.{VerifyWriter, forward, cache_only, verify_write_msg}

module _ (lib : Library) where
  open lib use {typify, match_reply}

  module _ (v : VerifyWriter) (now : ℕ) (res : Msg) (s : Cache lib) (h : HasQuestion res) where
    forward-Total : Total (forward lib v now res s)
    unfolding forward
    forward-Total = bind-Total _ _ (write_msg-Total lib v.inner now res s h) (λ p. (_, refl))

    cache_only-Total : Total (cache_only lib v now res s)
    unfolding cache_only
    cache_only-Total =
        bind-Total _ _ (write_msg-Total lib (record v.inner { prefetch = true }) now res s h)
          (λ p. (_, refl))

  pub verify_write_msg-Total :
      (v : VerifyWriter) (now : ℕ) (res : Msg) (s : Cache lib)
      → HasQuestion res
      → Total (verify_write_msg lib v now res s)
  unfolding verify_write_msg
  verify_write_msg-Total v now res s h =
      let v' : VerifyWriter = record {
        inner = v.inner;
        refreshed = false;
        response = none;
        kept = none;
      } in
      let P = λ (o : Option (Cache lib × VerifyWriter × List Msg)). Total o in
      let passed = forward-Total v' now res s h in
      if-cases P (res.truncated || not (match_reply v.inner.state res)) _ _ (λ _. (_, refl))
        (λ _.
          if-cases P s.config.prefer_positive _ _
            (λ _.
              if-cases P (usable_answer typify res now) _ _ (λ _. passed)
                (λ _. cache_only-Total v' now res s h))
            (λ _.
              if-cases P (is_uncached (typify res now)) _ _ (λ _. (_, refl))
                (λ _.
                  if-cases P
                    (not (res.rcode == rcode_success) && not (res.rcode == rcode_name_error)) _ _
                    (λ _. (_, refl)) (λ _. passed))))
