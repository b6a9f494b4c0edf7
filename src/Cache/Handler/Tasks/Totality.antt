-- ===== src/Cache/Handler/Tasks/Totality.antt =====
-- The refreshes of split-horizon-cache/handler.go and the panics in them.
use coredns_ez.Prelude.Options.{Total, bind-Total}
use coredns_ez.Prelude.{ℕ, refl, Bool, true, false, List, [], ◌∷◌, All}
use coredns_ez.Cache.Message.{Msg}
use coredns_ez.Cache.Item.{Request, Item}
use coredns_ez.Cache.State.{Library, Cache}
use coredns_ez.Cache.Writer.{Writer}
use coredns_ez.Cache.Writer.Totality.{HasQuestion, write_msg-Total}
use coredns_ez.Cache.Verify.{VerifyWriter}
use coredns_ez.Cache.Verify.Totality.{verify_write_msg-Total}
use coredns_ez.Cache.Handler.Tasks.{
  Upstream, Task, prefetching, verifying, write_all, verify_all, verify_writer, do_prefetch,
  run_task,
}
use coredns_ez.Cache.Handler.Tasks.Wrote.{writer_of}

abbrev pub AllAsked : List (ℕ × Msg) → Type 0
AllAsked = All (λ (w : ℕ × Msg). HasQuestion w.1)

module _ (lib : Library) where
  pub write_all-Total :
      (w : Writer) (writes : List (ℕ × Msg)) (s : Cache lib)
      → AllAsked writes
      → Total (write_all lib w writes s)
  unfolding write_all
  write_all-Total w [] s h = (_, refl)
  write_all-Total w ((now, m) ∷ writes) s (h, hs) =
      bind-Total _ _ (write_msg-Total lib w now m s h)
        (λ p. bind-Total _ _ (write_all-Total p.1 writes p.0 hs) (λ r. (_, refl)))

  pub verify_all-Total :
      (v : VerifyWriter) (writes : List (ℕ × Msg)) (s : Cache lib)
      → AllAsked writes
      → Total (verify_all lib v writes s)
  unfolding verify_all
  verify_all-Total v [] s h = (_, refl)
  verify_all-Total v ((now, m) ∷ writes) s (h, hs) =
      bind-Total _ _ (verify_write_msg-Total lib v now m s h)
        (λ p. bind-Total _ _ (verify_all-Total p.1 writes p.0 hs) (λ r. (_, refl)))

  do_prefetch-Total :
      (next : Request → Upstream) (w : Writer) (i : Item) (now : ℕ) (stale : Bool) (s : Cache lib)
      → AllAsked (next w.state).writes
      → Total (do_prefetch lib next w i now stale s)
  unfolding do_prefetch
  do_prefetch-Total next w i now false s h =
      bind-Total _ _ (write_all-Total w (next w.state).writes s h) (λ r. (_, refl))
  do_prefetch-Total next w i now true s h =
      bind-Total _ _ (verify_all-Total (verify_writer w) (next w.state).writes s h) (λ r. (_, refl))

  pub run_task-Total :
      (next : Request → Upstream) (task : Task) (s : Cache lib)
      → AllAsked (next (writer_of task).state).writes
      → Total (run_task lib next task s)
  unfolding run_task
  run_task-Total next (prefetching w i now stale recheck) s h =
      bind-Total _ _ (do_prefetch-Total next w i now stale s h) (λ r. (_, refl))
  run_task-Total next (verifying v i recheck) s h =
      bind-Total _ _ (verify_all-Total v (next v.inner.state).writes s h) (λ r. (_, refl))
