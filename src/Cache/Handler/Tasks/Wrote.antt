-- ===== src/Cache/Handler/Tasks/Wrote.antt =====
-- The refreshes of split-horizon-cache/handler.go: under what key they store answers.
use mathlib.Core.Path.{subst, fun_ext}
use coredns_ez.Prelude.Options.{bind_some, some_injective}
use coredns_ez.Prelude.{
  ℕ, ◌≤◌, ◌≡◌, refl, ◌∙◌, Bool, true, false, Option, none, some, List, [], ◌∷◌, ltb, All, arith,
  nat_tests, if-cases,
}
use coredns_ez.Cache.Message.{Msg}
use coredns_ez.Cache.Item.{Request, Item}
use coredns_ez.Cache.State.{Library, Cache}
use coredns_ez.Cache.Writer.{Writer, write_msg}
use coredns_ez.Cache.Writer.Wrote.{Wrote, nothing-Wrote, write_msg-Wrote}
use coredns_ez.Cache.Verify.{VerifyWriter, verify_write_msg}
use coredns_ez.Cache.Verify.Wrote.{VerifyWrote, verify_write_msg-Wrote}
use coredns_ez.Cache.Handler.Tasks.{
  Upstream, Task, prefetching, verifying, write_all, verify_all, verify_writer, do_prefetch, begin,
  finish, carry_hits, carry_to, put_refresh, run_task,
}
use coredns_ez.Cache.Scopes.{Scope, since, IsWire, Laws, Kept, SameWriter, Filed, scope_of}

abbrev pub AllWire : List (ℕ × Msg) → Type 0
AllWire = All (λ (w : ℕ × Msg). IsWire w.1)

since-since :
    (n m : ℕ) (scope scope' : Scope) (origin : ℕ → Scope)
    → n ≤ m
    → scope' ≡ scope
    → since m scope' (since n scope origin) ≡ since n scope origin
since-since n m scope scope' origin h e = fun_ext λ id. rw e (ground arith)

abbrev pub writer_of : Task → Writer
writer_of (prefetching w i now stale recheck) = w
writer_of (verifying v i recheck) = v.inner

module _ (lib : Library) where
  scope_same :
      (w w' : Writer) (s s' : Cache lib)
      → Kept lib s s'
      → SameWriter w w'
      → scope_of lib w' s'.gen ≡ scope_of lib w s.gen
  scope_same w w' s s' k e = cc (k.gen_same, e.do_same, e.cd_same, e.src_same)

  -- one write after another
  pub Wrote-trans :
      (origin : ℕ → Scope) (w w' : Writer) (s s' : Cache lib) (p : Cache lib × Writer)
      → Wrote lib origin w s (s', w')
      → Wrote lib (since s.next_id (scope_of lib w s.gen) origin) w' s' p
      → Wrote lib origin w s p
  Wrote-trans origin w w' s s' p (f, k, e) (f', k', e') = (
    subst (Filed lib p.0)
        (since-since s.next_id s'.next_id (scope_of lib w s.gen) (scope_of lib w' s'.gen) origin
          k.grows (scope_same w w' s s' k e))
        f',
    record {
      gen_same = k'.gen_same ∙ k.gen_same;
      config_same = k'.config_same ∙ k.config_same;
      grows = omega (arith, k.grows, k'.grows);
    },
    record {
      state_same = e'.state_same ∙ e.state_same;
      do_same = e'.do_same ∙ e.do_same;
      cd_same = e'.cd_same ∙ e.cd_same;
      src_same = e'.src_same ∙ e.src_same;
    },
  )

module _ (lib : Library) (laws : Laws lib) where
  pub write_all-Wrote :
      (origin : ℕ → Scope) (w : Writer) (writes : List (ℕ × Msg)) (s : Cache lib)
      (r : Cache lib × Writer × List Msg)
      → Filed lib s origin
      → AllWire writes
      → write_all lib w writes s ≡ some r
      → Wrote lib origin w s (r.0, r.1)
  unfolding write_all
  write_all-Wrote origin w [] s r f wire e =
      subst (λ (x : Cache lib × Writer × List Msg). Wrote lib origin w s (x.0, x.1)) {y = r}
        (some_injective e) (nothing-Wrote lib laws origin w s f)
  write_all-Wrote origin w ((now, m) ∷ writes) s r f (wire, wires) e =
      let ((s', w', out), one, more) = bind_some (write_msg lib w now m s) _ r e in
      let ((s'', w'', rest), all, ends) = bind_some (write_all lib w' writes s') _ r more in
      let first = write_msg-Wrote lib laws origin w w' now m s s' out f wire one in
      let others =
        write_all-Wrote (since s.next_id (scope_of lib w s.gen) origin) w' writes s'
          (s'', w'', rest) first.0 wires all in
      subst (λ (x : Cache lib × Writer × List Msg). Wrote lib origin w s (x.0, x.1)) {y = r}
        (some_injective ends) (Wrote-trans lib origin w w' s s' (s'', w'') first others)

  pub verify_all-Wrote :
      (origin : ℕ → Scope) (v : VerifyWriter) (writes : List (ℕ × Msg)) (s : Cache lib)
      (r : Cache lib × VerifyWriter × List Msg)
      → Filed lib s origin
      → AllWire writes
      → verify_all lib v writes s ≡ some r
      → VerifyWrote lib laws origin v s r
  unfolding verify_all
  verify_all-Wrote origin v [] s r f wire e =
      subst (VerifyWrote lib laws origin v s) {y = r} (some_injective e)
        (nothing-Wrote lib laws origin v.inner s f)
  verify_all-Wrote origin v ((now, m) ∷ writes) s r f (wire, wires) e =
      let ((s', v', out), one, more) = bind_some (verify_write_msg lib v now m s) _ r e in
      let ((s'', v'', rest), all, ends) = bind_some (verify_all lib v' writes s') _ r more in
      let first = verify_write_msg-Wrote lib laws origin v now m s (s', v', out) f wire one in
      let others =
        verify_all-Wrote (since s.next_id (scope_of lib v.inner s.gen) origin) v' writes s'
          (s'', v'', rest) first.0 wires all in
      subst (VerifyWrote lib laws origin v s) {y = r} (some_injective ends)
        (Wrote-trans lib origin v.inner v'.inner s s' (s'', v''.inner) first others)

  carry_to-Filed :
      (origin : ℕ → Scope) (i : Item) (now : ℕ) (o : Option Item) (s : Cache lib)
      → Filed lib s origin
      → Filed lib (carry_to lib i now o s) origin
  unfolding carry_to
  carry_to-Filed origin i now none s f = f
  carry_to-Filed origin i now (some j) s f = f

  pub begin-Filed :
      (origin : ℕ → Scope) (i : Item) (now recheck : ℕ) (s : Cache lib)
      → Filed lib s origin
      → Filed lib (begin lib i now recheck s).0 origin
  unfolding begin put_refresh
  begin-Filed origin i now recheck s f = f

  pub begin-same :
      (i : Item) (now recheck : ℕ) (s : Cache lib)
      → ((begin lib i now recheck s).0.next_id ≡ s.next_id)
        × ((begin lib i now recheck s).0.gen ≡ s.gen)
  unfolding begin put_refresh
  begin-same i now recheck s = (refl, refl)

  pub finish-Filed :
      (origin : ℕ → Scope) (i : Item) (now recheck : ℕ) (refreshed : Bool) (s : Cache lib)
      → Filed lib s origin
      → Filed lib (finish lib i now recheck refreshed s) origin
  unfolding finish put_refresh
  finish-Filed origin i now recheck refreshed s f = f

  do_prefetch-Filed :
      (origin : ℕ → Scope) (next : Request → Upstream) (w : Writer) (i : Item) (now : ℕ)
      (stale : Bool) (s : Cache lib) (r : Cache lib × Bool)
      → Filed lib s origin
      → AllWire (next w.state).writes
      → do_prefetch lib next w i now stale s ≡ some r
      → Filed lib r.0 (since s.next_id (scope_of lib w s.gen) origin)
  unfolding do_prefetch carry_hits verify_writer
  do_prefetch-Filed origin next w i now false s r f wire e =
      let ((s', w', out), done, ends) = bind_some (write_all lib w (next w.state).writes s) _ r e in
      let wrote = write_all-Wrote origin w (next w.state).writes s (s', w', out) f wire done in
      subst
        (λ (x : Cache lib × Bool). Filed lib x.0 (since s.next_id (scope_of lib w s.gen) origin))
        {y = r} (some_injective ends) (carry_to-Filed _ i now _ s' wrote.0)
  do_prefetch-Filed origin next w i now true s r f wire e =
      let ((s', v, out), done, ends) =
        bind_some (verify_all lib (verify_writer w) (next w.state).writes s) _ r e in
      let wrote =
        verify_all-Wrote origin (verify_writer w) (next w.state).writes s (s', v, out) f wire
          done in
      let P =
        λ (x : Cache lib × Bool). Filed lib x.0 (since s.next_id (scope_of lib w s.gen) origin) in
      subst P {y = r} (some_injective ends) (
        if-cases P v.refreshed (carry_hits lib w i now s', true) (s', false)
          (λ _. carry_to-Filed _ i now _ s' wrote.0) (λ _. wrote.0))

  -- If the answers of a cache are filed under their questions, each in its scope, then they still
  -- are after a refresh has run, with the new ones in the scope of its writer at the epoch at hand.
  pub run_task-Filed :
      (origin : ℕ → Scope) (next : Request → Upstream) (task : Task) (s s' : Cache lib)
      → Filed lib s origin
      → AllWire (next (writer_of task).state).writes
      → run_task lib next task s ≡ some s'
      → Filed lib s' (since s.next_id (scope_of lib (writer_of task) s.gen) origin)
  unfolding run_task
  run_task-Filed origin next (prefetching w i now stale recheck) s s' f wire e =
      let (r, done, ends) = bind_some (do_prefetch lib next w i now stale s) _ s' e in
      let filed = do_prefetch-Filed origin next w i now stale s r f wire done in
      subst (λ (x : Cache lib). Filed lib x (since s.next_id (scope_of lib w s.gen) origin))
        {y = s'} (some_injective ends) (finish-Filed _ i (next w.state).ended recheck r.1 r.0 filed)
  run_task-Filed origin next (verifying v i recheck) s s' f wire e =
      let up = next v.inner.state in
      let ((t, v', out), done, ends) = bind_some (verify_all lib v up.writes s) _ s' e in
      let wrote = verify_all-Wrote origin v up.writes s (t, v', out) f wire done in
      let P =
        λ (x : Cache lib). Filed lib x (since s.next_id (scope_of lib v.inner s.gen) origin) in
      subst P {y = s'} (some_injective ends) (
        if-cases P (ltb 0 recheck) (finish lib i up.ended recheck v'.refreshed t) t
          (λ _. finish-Filed _ i up.ended recheck v'.refreshed t wrote.0) (λ _. wrote.0))
