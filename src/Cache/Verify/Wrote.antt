-- ===== src/Cache/Verify/Wrote.antt =====
-- WriteMsg of verifyStaleResponseWriter (split-horizon-cache/cache.go): the key of what it stores.
use mathlib.Core.Path.{subst}
use coredns_ez.Prelude.Options.{bind_some, some_injective}
use coredns_ez.Prelude.{
  ℕ, ◌≡◌, Bool, true, false, not, Option, none, some, List, [], ◌&&◌, ◌||◌, ◌==◌, nat_tests,
  if◌then◌else◌,
}
use coredns_ez.Cache.Message.{Msg, usable_answer, rcode_success, rcode_name_error}
use coredns_ez.Cache.Keys.{is_uncached}
use coredns_ez.Cache.State.{Library, Cache}
use coredns_ez.Cache.Writer.{write_msg}
use coredns_ez.Cache.Writer.Wrote.{Wrote, nothing-Wrote, write_msg-Wrote}
use coredns_ez.Cache.Verify.{VerifyWriter, forward, cache_only, verify_write_msg}
use coredns_ez.Cache.Scopes.{Scope, IsWire, Laws, Filed}

-- the branches of WriteMsg
branches {ℓ κ} :
    {A : Type ℓ} (P : A → Type κ) (wrong prefers usable uncached failed : Bool) (x y z : A)
    → P x
    → P y
    → P z
    → P (
        if wrong
        then x
        else if prefers
        then if usable then y else z
        else if uncached
        then x
        else if failed
        then x
        else y)
branches P true _ _ _ _ x y z p q r = p
branches P false true true _ _ x y z p q r = q
branches P false true false _ _ x y z p q r = r
branches P false false _ true _ x y z p q r = p
branches P false false _ false true x y z p q r = p
branches P false false _ false false x y z p q r = q

module _ (lib : Library) (laws : Laws lib) (origin : ℕ → Scope) where
  open lib use {typify, match_reply}

  abbrev pub VerifyWrote : VerifyWriter → Cache lib → Cache lib × VerifyWriter × List Msg → Type 0
  VerifyWrote v s r = Wrote lib origin v.inner s (r.0, r.1.inner)

  module _ (v : VerifyWriter) (now : ℕ) (res : Msg) (s : Cache lib) (f : Filed lib s origin)
      (wire : IsWire res) (r : Cache lib × VerifyWriter × List Msg) where
    forward-Wrote : forward lib v now res s ≡ some r → VerifyWrote v s r
    unfolding forward
    forward-Wrote e =
        let ((s', w, out), done, ends) = bind_some (write_msg lib v.inner now res s) _ r e in
        subst (VerifyWrote v s) {y = r} (some_injective ends)
          (write_msg-Wrote lib laws origin v.inner w now res s s' out f wire done)

    cache_only-Wrote : cache_only lib v now res s ≡ some r → VerifyWrote v s r
    unfolding cache_only
    cache_only-Wrote e =
        let silent = record v.inner { prefetch = true } in
        let ((s', w, out), done, ends) = bind_some (write_msg lib silent now res s) _ r e in
        let (filed, kept, same) =
          write_msg-Wrote lib laws origin silent w now res s s' out f wire done in
        subst (VerifyWrote v s) {y = r} (some_injective ends) (
          filed,
          kept,
          record {
            state_same = same.state_same;
            do_same = same.do_same;
            cd_same = same.cd_same;
            src_same = same.src_same;
          },
        )

  pub verify_write_msg-Wrote :
      (v : VerifyWriter) (now : ℕ) (res : Msg) (s : Cache lib)
      (r : Cache lib × VerifyWriter × List Msg)
      → Filed lib s origin
      → IsWire res
      → verify_write_msg lib v now res s ≡ some r
      → VerifyWrote v s r
  unfolding verify_write_msg
  verify_write_msg-Wrote v now res s r f wire =
      let v' : VerifyWriter = record {
        inner = v.inner;
        refreshed = false;
        response = none;
        kept = none;
      } in
      let P =
        λ (o : Option (Cache lib × VerifyWriter × List Msg)). o ≡ some r → VerifyWrote v s r in
      let ignored : P (some (s, v', [])) = λ e.
        subst (VerifyWrote v s) {y = r} (some_injective e)
          (nothing-Wrote lib laws origin v.inner s f) in
      let passed = forward-Wrote v' now res s f wire r in
      branches P (res.truncated || not (match_reply v.inner.state res)) s.config.prefer_positive
        (usable_answer typify res now) (is_uncached (typify res now))
        (not (res.rcode == rcode_success) && not (res.rcode == rcode_name_error)) (some (s, v', []))
        (forward lib v' now res s) (cache_only lib v' now res s) ignored passed
        (cache_only-Wrote v' now res s f wire r)
