-- ===== src/Cache/Handler/Wrote.antt =====
-- ServeDNS (split-horizon-cache/handler.go): under what key it stores answers, and the scope of
-- each.
use mathlib.Core.Path.{subst}
use coredns_ez.Prelude.Options.{bind_some, some_injective}
use coredns_ez.Prelude.{
  ℕ, ◌≡◌, refl, String, Bool, true, false, not, Option, none, some, List, [], ◌∷◌, ◌++◌, ltb, ◌==◌,
  nat_tests, text_tests, if◌then◌else◌, if-cases, neg_part, ◌-◌, ◌*◌,
}
use coredns_ez.Cachegen.{Ip}
use coredns_ez.Cache.Message.{Msg}
use coredns_ez.Cache.Keys.{key_src}
use coredns_ez.Cache.Item.{Request, Item, content, ttl_at, second, is_positive}
use coredns_ez.Cache.State.{Library, Cache}
use coredns_ez.Cache.Verify.{VerifyWriter}
use coredns_ez.Cache.Lookup.{get_if_not_stale}
use coredns_ez.Cache.Handler.Tasks.{
  Upstream, Task, verifying, write_all, verify_all, begin, finish, authenticated, new_writer,
  stale_writer, verify_writer,
}
use coredns_ez.Cache.Handler.Tasks.Wrote.{
  AllWire, write_all-Wrote, verify_all-Wrote, begin-Filed, begin-same, finish-Filed,
}
use coredns_ez.Cache.Handler.{
  Outcome, passed, Verified, answered, unanswered, pass_on, miss, tracked, accepted, fresh_reply,
  sent_as, verify_now, verify_in_time, verify_stale, try_prefetch, should_prefetch, reply_with,
  serve_fresh, after_verify, serve_stale, serve_item, serve_keyed, serve_dns,
}
use coredns_ez.Cache.Scopes.{Scope, since, Laws, Filed, Filed-since}

module _ (lib : Library) (laws : Laws lib) (origin : ℕ → Scope) (next : Request → Upstream)
    (in_time fails : Bool) (q : Request) where
  open lib use {parse_ip, zone_of}

  -- the scope of a client that asks
  abbrev pub scope_for : List ℕ → Cache lib → Scope
  scope_for src s = record { do_bit = q.do_bit; cd = q.cd; src = src; epoch = s.gen.epoch }

  module _ (src : List ℕ) (s : Cache lib) (f : Filed lib s origin)
      (wire : AllWire (next (authenticated q)).writes) where
    abbrev Good : Cache lib → Type 0
    Good t = Filed lib t (since s.next_id (scope_for src s) origin)

    nothing-Good : Good s
    nothing-Good = Filed-since lib origin s (scope_for src s) f

    miss-Good :
        (wildcard : String) (o : Outcome lib)
        → miss lib next wildcard q src s ≡ some o
        → Good o.cache
    unfolding miss new_writer
    miss-Good wildcard o e =
        let up = next (authenticated q) in
        let w = new_writer q src wildcard s.config.pexcept s.config.nexcept in
        let ((t, w', out), done, ends) = bind_some (write_all lib w up.writes s) _ o e in
        subst (λ (x : Outcome lib). Good x.cache) {y = o} (some_injective ends)
          (write_all-Wrote lib laws origin w up.writes s (t, w', out) f wire done).0

    abbrev GoodVerified : Verified lib → Type 0
    GoodVerified (answered t out code) = Good t
    GoodVerified (unanswered t out task) = Good t

    tracked-Good :
        (i : Item) (now : ℕ) (refreshed : Bool) (t : Cache lib)
        → Good t
        → Good (tracked lib i now refreshed t)
    unfolding tracked
    tracked-Good i now refreshed t g =
        if-cases Good (ltb 0 t.config.stale_recheck)
          (finish lib i now t.config.stale_recheck refreshed t) t
          (λ _. finish-Filed lib laws _ i now t.config.stale_recheck refreshed t g) (λ _. g)

    accepted-Good :
        (up : Upstream) (v : VerifyWriter) (t : Cache lib) (out : List Msg)
        → Good t
        → GoodVerified (accepted lib fails q up v t out)
    unfolding accepted
    accepted-Good up v t out g = split v.response
      where
        split :
            (o : Option Msg)
            → GoodVerified (elim o [
              | none ↦ answered t out (passed up.code)
              | some m ↦
                  answered t
                    (out ++ fresh_reply lib t.config.keepttl q up.ended v m ∷ [])
                    (sent_as lib fails)
            ])
        split none = g
        split (some m) = g

    module _ (i : Item) (timed : Bool) (s' : Cache lib) (f' : Filed lib s' origin)
        (ids : s'.next_id ≡ s.next_id) (gens : s'.gen ≡ s.gen) where
      abbrev verifier : VerifyWriter
      verifier = verify_writer (stale_writer q src timed)

      verified-Good :
          (r : Cache lib × VerifyWriter × List Msg)
          → verify_all lib verifier (next verifier.inner.state).writes s' ≡ some r
          → Good r.0
      unfolding verify_writer stale_writer
      verified-Good r e =
          let wrote =
            verify_all-Wrote lib laws origin verifier (next (authenticated q)).writes s' r f' wire
              e in
          subst (λ (n : ℕ). Filed lib r.0 (since n (scope_for src s) origin)) ids
            (subst
              (λ g. Filed lib r.0 (since s'.next_id (scope_for src (record s { gen = g })) origin))
              gens wrote.0)

      verify_now-Good :
          (r : Verified lib) → verify_now lib next verifier i s' ≡ some r → GoodVerified r
      unfolding verify_now
      verify_now-Good r e =
          let up = next verifier.inner.state in
          let ((t, v', out), done, ends) = bind_some (verify_all lib verifier up.writes s') _ r e in
          let kept = tracked-Good i up.ended v'.refreshed t (verified-Good (t, v', out) done) in
          let t' = tracked lib i up.ended v'.refreshed t in
          subst GoodVerified {y = r} (some_injective ends) (
            if-cases GoodVerified v'.refreshed (answered t' out (passed up.code))
              (unanswered t' out none) (λ _. kept) (λ _. kept))

      verify_in_time-Good :
          (r : Verified lib)
          → verify_in_time lib next fails verifier i q s' ≡ some r
          → GoodVerified r
      unfolding verify_in_time
      verify_in_time-Good r e =
          let up = next verifier.inner.state in
          let ((t, v', out), done, ends) = bind_some (verify_all lib verifier up.writes s') _ r e in
          let kept = tracked-Good i up.ended v'.refreshed t (verified-Good (t, v', out) done) in
          let t' = tracked lib i up.ended v'.refreshed t in
          subst GoodVerified {y = r} (some_injective ends) (
            if-cases GoodVerified v'.refreshed (accepted lib fails q up v' t' out)
              (unanswered t' out none) (λ _. accepted-Good up v' t' out kept) (λ _. kept))

      unanswered-Good : (task : Option Task) → GoodVerified (unanswered s' [] task)
      unanswered-Good task =
          subst (λ (n : ℕ). Filed lib s' (since n (scope_for src s) origin)) ids
            (Filed-since lib origin s' (scope_for src s) f')

      verified_by :
          (may : Bool) (task : Option Task) (r : Verified lib)
          → (if not may
              then some (unanswered s' [] none)
              else if not timed
              then verify_now lib next verifier i s'
              else if in_time
              then verify_in_time lib next fails verifier i q s'
              else some (unanswered s' [] task))
            ≡ some r
          → GoodVerified r
      verified_by may task r =
          let P = λ (o : Option (Verified lib)). o ≡ some r → GoodVerified r in
          let stopped = λ (x : Option Task) (e : some (unanswered s' [] x) ≡ some r).
            subst GoodVerified {y = r} (some_injective e) (unanswered-Good x) in
          if-cases P (not may) _ _ (λ _. stopped none)
            (λ _.
              if-cases P (not timed) _ _ (λ _. verify_now-Good r)
                (λ _. if-cases P in_time _ _ (λ _. verify_in_time-Good r) (λ _. stopped task)))

    verify_stale-Good :
        (now : ℕ) (i : Item) (r : Verified lib)
        → verify_stale lib next in_time fails now i q src s ≡ some r
        → GoodVerified r
    unfolding verify_stale
    verify_stale-Good now i r e =
        let recheck = s.config.stale_recheck in
        let track = ltb 0 recheck in
        let (begun, free) = begin lib i now recheck s in
        let s' = if track then begun else s in
        let same = begin-same lib laws i now recheck s in
        verified_by i (ltb 0 s.config.verify_stale_timeout) s'
          (if-cases (λ (t : Cache lib). Filed lib t origin) track begun s
            (λ _. begin-Filed lib laws origin i now recheck s f) (λ _. f))
          (if-cases (λ (t : Cache lib). t.next_id ≡ s.next_id) track begun s (λ _. same.0)
            (λ _. refl))
          (if-cases (λ (t : Cache lib). t.gen ≡ s.gen) track begun s (λ _. same.1) (λ _. refl))
          (if track then free else true)
          (some (
            verifying (verify_writer (stale_writer q src (ltb 0 s.config.verify_stale_timeout))) i
              s'.config.stale_recheck))
          r e

    try_prefetch-Good :
        (i : Item) (clock now : ℕ) (stale : Bool) (t : Cache lib)
        → Good t
        → Good (try_prefetch lib i q src clock now stale t).0
    unfolding try_prefetch
    try_prefetch-Good i clock now stale t g = split (parse_ip q.ip) refl
      where
        split :
            (o : Option Ip)
            → parse_ip q.ip ≡ o
            → Good (try_prefetch lib i q src clock now stale t).0
        split none e = rw (e, try_prefetch) g
        split (some ip) e =
            let recheck = if stale then t.config.stale_recheck else 0 in
            let begun = begin-Filed lib laws _ i clock recheck t g in
            rw (e, try_prefetch)
              (if-cases (λ (p : Cache lib × Option Task). Good p.0) (begin lib i clock recheck t).1
                _ _ (λ _. begun) (λ _. begun))

    should_prefetch-Good : (i : Item) (now : ℕ) → Good (should_prefetch lib (content i) now s).0
    unfolding should_prefetch
    should_prefetch-Good i now =
        if-cases (λ (p : Cache lib × Bool). Good p.0) (s.config.prefetch == 0) _ _
          (λ _. nothing-Good) (λ _. nothing-Good)

    serve_fresh-Good : (i : Item) (now : ℕ) → Good (serve_fresh lib i q src now s).cache
    unfolding serve_fresh reply_with
    serve_fresh-Good i now =
        let (s', wanted) = should_prefetch lib (content i) now s in
        let good = try_prefetch-Good i now now false s' (should_prefetch-Good i now) in
        let (s'', task) = try_prefetch lib i q src now now false s' in
        if-cases (λ (o : Outcome lib). Good o.cache) wanted
          (reply_with lib i q false now [] s'' task) (reply_with lib i q false now [] s' none)
          (λ _. good) (λ _. should_prefetch-Good i now)

    after_verify-Good :
        (i : Item) (now : ℕ) (r : Verified lib)
        → GoodVerified r
        → Good (after_verify lib i q now r).cache
    unfolding after_verify reply_with
    after_verify-Good i now (answered t out code) g = g
    after_verify-Good i now (unanswered t out task) g = g

    serve_stale-Good :
        (i : Item) (now : ℕ) (o : Outcome lib)
        → serve_stale lib next in_time fails i q src now s ≡ some o
        → Good o.cache
    unfolding serve_stale reply_with
    serve_stale-Good i now o =
        let now' = now - neg_part (ttl_at (content i) now) * second in
        let P = λ (x : Option (Outcome lib)). x ≡ some o → Good o.cache in
        let good = try_prefetch-Good i now now' true s nothing-Good in
        if-cases P s.config.verify_stale _ _
          (λ _ e.
            let (r, done, ends) =
              bind_some (verify_stale lib next in_time fails now i q src s) _ o e in
            subst (λ (x : Outcome lib). Good x.cache) {y = o} (some_injective ends)
              (after_verify-Good i now' r (verify_stale-Good now i r done)))
          (λ _ e. subst (λ (x : Outcome lib). Good x.cache) {y = o} (some_injective e) good)

    pass_on-Good :
        (o : Outcome lib)
        → ◌≡◌ {A = Option (Outcome lib)} (some (pass_on lib next q s)) (some o)
        → Good o.cache
    unfolding pass_on
    pass_on-Good o e =
        subst (λ (x : Outcome lib). Good x.cache) {y = o} (some_injective e) nothing-Good

    serve_item-Good :
        (wildcard : String) (now : ℕ) (found : Option Item) (o : Outcome lib)
        → serve_item lib next in_time fails wildcard now q src s found ≡ some o
        → Good o.cache
    unfolding serve_item
    serve_item-Good wildcard now none o e = miss-Good wildcard o e
    serve_item-Good wildcard now (some i) o e =
        if-cases (λ (x : Option (Outcome lib)). x ≡ some o → Good o.cache)
          (is_positive (ttl_at (content i) now)) (some (serve_fresh lib i q src now s))
          (serve_stale lib next in_time fails i q src now s)
          (λ _ e.
            subst (λ (x : Outcome lib). Good x.cache) {y = o} (some_injective e)
              (serve_fresh-Good i now))
          (λ _. serve_stale-Good i now o) e

  -- If the answers of a cache are filed under their questions, each in its scope, and what the next
  -- plugin writes has 16-bit questions, then after ServeDNS they are filed again: those that were
  -- there in the scopes they had, and the new ones in the scope of the client that asked, at the
  -- epoch at hand.
  pub serve_dns-Filed :
      (wildcard : String) (now : ℕ) (s : Cache lib) (o : Outcome lib)
      → Filed lib s origin
      → AllWire (next (authenticated q)).writes
      → serve_dns lib next in_time fails wildcard now q s ≡ some o
      → Filed lib o.cache
          (since s.next_id (scope_for (key_src parse_ip s.gen s.config.masks q.ip) s) origin)
  unfolding serve_dns
  serve_dns-Filed wildcard now s o f wire =
      let src = key_src parse_ip s.gen s.config.masks q.ip in
      if-cases (λ (x : Option (Outcome lib)). x ≡ some o → Good src s f wire o.cache)
        (zone_of s.config.zones q.name == "") (some (pass_on lib next q s))
        (serve_keyed lib next in_time fails wildcard now q src s) (λ _. pass_on-Good src s f wire o)
        (λ _. by_src src)
    where
      by_src :
          (src : List ℕ)
          → serve_keyed lib next in_time fails wildcard now q src s ≡ some o
          → Good src s f wire o.cache
      by_src [] e = pass_on-Good [] s f wire o e
      by_src (b ∷ bs) e =
          serve_item-Good (b ∷ bs) s f wire wildcard now (get_if_not_stale lib now q (b ∷ bs) s) o e
