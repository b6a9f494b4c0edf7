-- ===== src/Cache/Verify/Guards.antt =====
-- What the writer that verifies stale items lets through.
use mathlib.Core.Path.{subst}
use coredns_ez.Prelude.Options.{bind_some, some_injective}
use coredns_ez.Prelude.{
  ℕ, ◌≡◌, ◌⊎◌, refl, true, false, not, Option, none, some, List, [], ◌&&◌, ◌||◌, arith, ◌==◌,
  nat_tests, if-cases,
}
use coredns_ez.Cache.Message.{Msg, usable_answer, rcode_success, rcode_name_error}
use coredns_ez.Cache.Keys.{is_uncached}
use coredns_ez.Cache.State.{Library, Cache}
use coredns_ez.Cache.Writer.{write_msg}
use coredns_ez.Cache.Writer.Replies.{write_msg-silent}
use coredns_ez.Cache.Verify.{VerifyWriter, forward, cache_only, verify_write_msg}

module _ (lib : Library) where
  open lib use {typify, match_reply}

  -- a reply that may take the place of a stale item
  pub record Replaces (s : Cache lib) (v : VerifyWriter) (now : ℕ) (res : Msg) : Type 0 where
    pub whole : res.truncated ≡ false
    pub fitting : match_reply v.inner.state res ≡ true
    pub usable : s.config.prefer_positive ≡ true → usable_answer typify res now ≡ true
    pub resolved :
        s.config.prefer_positive ≡ false
        → (res.rcode ≡ rcode_success) ⊎ (res.rcode ≡ rcode_name_error)

  abbrev pub Guarded :
      Cache lib → VerifyWriter → ℕ → Msg → Cache lib × VerifyWriter × List Msg → Type 0
  Guarded s v now res r =
      (r.1.refreshed ≡ true → Replaces s v now res)
      × (r.1.refreshed ≡ false → (r.2 ≡ []) × (s.config.prefer_positive ≡ false → r.0 ≡ s))

  module _ (v : VerifyWriter) (now : ℕ) (res : Msg) (s : Cache lib)
      (r : Cache lib × VerifyWriter × List Msg) where
    abbrev start : VerifyWriter
    start = record { inner = v.inner; refreshed = false; response = none; kept = none }

    ignored-Guarded :
        ◌≡◌ {A = Option (Cache lib × VerifyWriter × List Msg)} (some (s, start, [])) (some r)
        → Guarded s v now res r
    ignored-Guarded e =
        subst (Guarded s v now res) {y = r} (some_injective e)
          (λ t. absurd (cc t), λ _. (refl, λ _. refl))

    forward-Guarded :
        Replaces s v now res → forward lib start now res s ≡ some r → Guarded s v now res r
    unfolding forward
    forward-Guarded ok e =
        let ((s', w, out), done, ends) = bind_some (write_msg lib v.inner now res s) _ r e in
        subst (Guarded s v now res) {y = r} (some_injective ends) (λ _. ok, λ t. absurd (cc t))

    cache_only-Guarded :
        s.config.prefer_positive ≡ true
        → cache_only lib start now res s ≡ some r
        → Guarded s v now res r
    unfolding cache_only
    cache_only-Guarded prefers e =
        let silent = record v.inner { prefetch = true } in
        let ((s', w, out), done, ends) = bind_some (write_msg lib silent now res s) _ r e in
        subst (Guarded s v now res) {y = r} (some_injective ends) (
          λ t. absurd (cc t),
          λ _. (
            write_msg-silent lib silent now res s (s', w, out) refl done,
            λ p. absurd (cc (p, prefers)),
          ),
        )

  -- A reply that the verifying writer takes for a refresh is whole and fits the query; under
  -- prefer_positive it is a usable positive answer, and otherwise a success or a name error. After
  -- any other reply nothing has been sent to the client, and without prefer_positive the cache is
  -- as it was.
  pub verify_write_msg-Guarded :
      (v : VerifyWriter) (now : ℕ) (res : Msg) (s : Cache lib)
      (r : Cache lib × VerifyWriter × List Msg)
      → verify_write_msg lib v now res s ≡ some r
      → Guarded s v now res r
  unfolding verify_write_msg
  verify_write_msg-Guarded v now res s r =
      let P =
        λ (o : Option (Cache lib × VerifyWriter × List Msg)). o ≡ some r → Guarded s v now res r in
      let ignored = ignored-Guarded v now res s r in
      let wrong = res.truncated || not (match_reply v.inner.state res) in
      let usable = usable_answer typify res now in
      let failed = not (res.rcode == rcode_success) && not (res.rcode == rcode_name_error) in
      if-cases P wrong _ _ (λ _. ignored)
        (λ right.
          if-cases P s.config.prefer_positive _ _
            (λ prefers.
              if-cases P usable _ _
                (λ good. forward-Guarded v now res s r (record {
                  whole = ground (arith, right);
                  fitting = ground (arith, right);
                  usable = λ _. good;
                  resolved = λ p. absurd (cc (p, prefers));
                }))
                (λ _. cache_only-Guarded v now res s r prefers))
            (λ plain.
              if-cases P (is_uncached (typify res now)) _ _ (λ _. ignored)
                (λ _.
                  if-cases P failed _ _ (λ _. ignored)
                    (λ good. forward-Guarded v now res s r (record {
                      whole = ground (arith, right);
                      fitting = ground (arith, right);
                      usable = λ p. absurd (cc (p, plain));
                      resolved = λ _. ground (arith, good);
                    })))))
