-- ===== src/Cache/Writer/Wrote.antt =====
-- WriteMsg of ResponseWriter (split-horizon-cache/cache.go): the keys of all that the cache holds.
use mathlib.Core.Path.{subst}
use coredns_ez.Prelude.Options.{bind_some, some_injective}
use coredns_ez.Prelude.{
  ℕ, ◌≡◌, refl, inl, inr, Bool, true, false, none, some, List, arith, nat_tests, text_tests,
  if◌then◌else◌, if_some,
}
use coredns_ez.Cache.Message.{
  Msg, ResponseType, no_error, name_error, server_error, no_data, delegation, meta, update,
  other_error, cache_response_type,
}
use coredns_ez.Cache.Keys.{Key, unstored, stored, panic, key, question_key}
use coredns_ez.Cache.Item.{seconds32}
use coredns_ez.Cache.State.{Library, Cache}
use coredns_ez.Cache.Writer.{
  Writer, write_msg, set, set_success, set_denial, allocate, store_reply, duration_of, capped,
}
use coredns_ez.Cache.Writer.Filed.{first-Asked, key-question, set-Filed}
use coredns_ez.Cache.Scopes.{
  Scope, since, IsWire, Laws, Kept, SameWriter, Filed, Filed-since, scope_of,
}

pub same : (w : Writer) → SameWriter w w
same w = record { state_same = refl; do_same = refl; cd_same = refl; src_same = refl }

module _ (lib : Library) where
  pub kept : (s : Cache lib) → Kept lib s s
  kept s = record { gen_same = refl; config_same = refl; grows = omega arith }

  abbrev Both : Cache lib → Writer → Cache lib × Writer → Type 0
  Both s w p = Kept lib s p.0 × SameWriter w p.1

  module _ (w : Writer) (now k duration : ℕ) (m : Msg) (s : Cache lib) where
    set_success-Kept : Both s w (set_success lib w now m k duration s)
    unfolding set_success allocate
    set_success-Kept = (
      record { gen_same = refl; config_same = refl; grows = omega arith },
      record { state_same = refl; do_same = refl; cd_same = refl; src_same = refl },
    )

    set_denial-Kept : Both s w (set_denial lib w now m k duration s)
    unfolding set_denial allocate
    set_denial-Kept = (
      record { gen_same = refl; config_same = refl; grows = omega arith },
      record { state_same = refl; do_same = refl; cd_same = refl; src_same = refl },
    )

    either_Kept :
        (b : Bool) (p : Cache lib × Writer) → Both s w p → Both s w (if b then (s, w) else p)
    either_Kept true p f = (kept s, same w)
    either_Kept false p f = f

    set-Kept : (t : ResponseType) → Both s w (set lib w now m k t duration s)
    unfolding set
    set-Kept no_error = either_Kept _ _ set_success-Kept
    set-Kept delegation = either_Kept _ _ set_success-Kept
    set-Kept name_error = either_Kept _ _ set_denial-Kept
    set-Kept no_data = either_Kept _ _ set_denial-Kept
    set-Kept server_error = either_Kept _ _ set_denial-Kept
    set-Kept other_error = (kept s, same w)
    set-Kept meta = (kept s, same w)
    set-Kept update = (kept s, same w)

-- What a write gives: the answers are filed, those that are new in the writer's scope.
abbrev pub Wrote : (lib : Library) → (ℕ → Scope) → Writer → Cache lib → Cache lib × Writer → Type 0
Wrote lib origin w s p =
    Filed lib p.0 (since s.next_id (scope_of lib w s.gen) origin)
    × Kept lib s p.0
    × SameWriter w p.1

module _ (lib : Library) (laws : Laws lib) (origin : ℕ → Scope) where
  open lib use {match_reply}

  pub nothing-Wrote :
      (w : Writer) (s : Cache lib) → Filed lib s origin → Wrote lib origin w s (s, w)
  nothing-Wrote w s f = (Filed-since lib origin s (scope_of lib w s.gen) f, kept lib s, same w)

  store_reply-Wrote :
      (now duration : ℕ) (m : Msg) (t : ResponseType) (w : Writer) (k : Key) (s : Cache lib)
      (p : Cache lib × Writer)
      → Filed lib s origin
      → IsWire m
      → ((j : ℕ)
          → k ≡ stored j
          → question_key s.gen w.state.name m.question w.do_bit w.cd w.src ≡ stored j)
      → store_reply lib w now m k t duration s ≡ some p
      → Wrote lib origin w s p
  unfolding store_reply
  store_reply-Wrote now duration m t w panic s p f wire q e = absurd (cc e)
  store_reply-Wrote now duration m t w unstored s p f wire q e =
      subst (Wrote lib origin w s) (cc e) (nothing-Wrote w s f)
  store_reply-Wrote now duration m t w (stored k) s p f wire q e =
      elim (if_some _ (set lib w now m k t duration s) (some (s, w)) p e) [
        | inl (b, done) ↦
            let fits : match_reply w.state m ≡ true = ground (arith, b) in
            let asked =
              first-Asked s.gen w.state.name m.question w.do_bit w.cd w.src k (q k refl)
                (laws.match_named w.state m fits) wire in
            let (kept_s, kept_w) = set-Kept lib w now k duration m s t in
            subst (Wrote lib origin w s) done
              (set-Filed lib laws origin w s f now k duration m asked t, kept_s, kept_w)
        | inr (b, done) ↦ subst (Wrote lib origin w s) (cc done) (nothing-Wrote w s f)
      ]

  -- If the answers of a cache are filed under their questions, each in its scope, and a reply has a
  -- question with 16-bit numbers or none, then after WriteMsg the answers are filed again: those
  -- that were there in the scopes they had, and a new one in the scope of the writer, at the epoch
  -- of the write.
  pub write_msg-Wrote :
      (w w' : Writer) (now : ℕ) (res : Msg) (s s' : Cache lib) (out : List Msg)
      → Filed lib s origin
      → IsWire res
      → write_msg lib w now res s ≡ some (s', w', out)
      → Wrote lib origin w s (s', w')
  unfolding write_msg capped
  write_msg-Wrote w w' now res s s' out f wire e =
      let t = cache_response_type lib.typify res now in
      let d = duration_of lib s.config res t in
      let k = key s.gen w.state.name res t w.do_bit w.cd w.src in
      let reply =
        store_reply lib (record w { last_item = none }) now (capped (seconds32 d) res) k t d s in
      let ((s1, w1), stored_as, ends) = bind_some reply _ (s', w', out) e in
      let (filed, kept_s, kept_w) =
        store_reply-Wrote now d (capped (seconds32 d) res) t (record w { last_item = none }) k s
          (s1, w1) f wire (λ j. key-question s.gen w.state.name res t w.do_bit w.cd w.src j)
          stored_as in
      subst (λ (r : Cache lib × Writer × List Msg). Wrote lib origin w s (r.0, r.1))
        {y = (s', w', out)} (some_injective ends)
        (
          filed,
          kept_s,
          record {
            state_same = kept_w.state_same;
            do_same = kept_w.do_same;
            cd_same = kept_w.cd_same;
            src_same = kept_w.src_same;
          },
        )
