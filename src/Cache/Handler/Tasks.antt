-- ===== src/Cache/Handler/Tasks.antt =====
-- split-horizon-cache/handler.go, the parts of a refresh: what the next plugin writes goes through
-- a writer, and the item's refresh state is kept around it (doRefresh, doPrefetch, the goroutines
-- of tryPrefetch and verifyWithTimeout).
pub mod Wrote
pub mod Totality
use coredns_ez.Prelude.Options.{◌>>=◌}
use coredns_ez.Prelude.{
  ℕ, String, Bool, true, false, not, Option, none, some, List, [], ◌∷◌, ◌++◌, ltb, ◌==◌, nat_tests,
  if◌then◌else◌,
}
use coredns_ez.Cache.Message.{Msg}
use coredns_ez.Cache.Item.{Request, Item, content, Refresh, begin_refresh, end_refresh}
use coredns_ez.Cache.State.{Library, Cache}
use coredns_ez.Cache.Writer.{Writer, write_msg}
use coredns_ez.Cache.Verify.{VerifyWriter, verify_write_msg}
use coredns_ez.Cache.Lookup.{exists}

-- one run of the next plugin
pub record Upstream : Type 0 where
  pub writes : List (ℕ × Msg)
  pub ended : ℕ
  pub code : ℕ

-- authenticatedRefreshState
unfoldable pub authenticated : Request → Request
authenticated q = record q { ad = true }

-- the writer of a miss: it has the exceptions of the configuration
unfoldable pub new_writer : Request → List ℕ → String → List String → List String → Writer
new_writer q src wildcard pexcept nexcept = record {
  state = authenticated q;
  do_bit = q.do_bit;
  cd = q.cd;
  ad = q.ad;
  prefetch = false;
  src = src;
  wildcard = some wildcard;
  last_response = none;
  last_item = none;
  pexcept = pexcept;
  nexcept = nexcept;
}

-- The writer that verifies a stale item: its fields for the exceptions and the wildcard are not
-- set.
unfoldable pub stale_writer : Request → List ℕ → Bool → Writer
stale_writer q src background = record {
  state = authenticated q;
  do_bit = q.do_bit;
  cd = q.cd;
  ad = q.ad;
  prefetch = background;
  src = src;
  wildcard = none;
  last_response = none;
  last_item = none;
  pexcept = [];
  nexcept = [];
}

-- newPrefetchResponseWriter, for a client whose address parses
unfoldable pub prefetch_writer : Request → List ℕ → Writer
unfolding stale_writer
prefetch_writer q src = record (stale_writer q src true) { ad = true }

-- newVerifyStaleResponseWriter
unfoldable pub verify_writer : Writer → VerifyWriter
verify_writer w = record { inner = w; refreshed = false; response = none; kept = none }

-- A goroutine that was started: its writer, the item it refreshes, and what it knows.
pub data Task : Type 0 where
  prefetching : Writer → Item → ℕ → Bool → ℕ → Task
  verifying : VerifyWriter → Item → ℕ → Task

module _ (lib : Library) where
  open lib use {hits, reset}

  unfoldable pub write_all :
      Writer → List (ℕ × Msg) → Cache lib → Option (Cache lib × Writer × List Msg)
  write_all w [] s = some (s, w, [])
  write_all w ((now, m) ∷ writes) s = do
    (s', w', out) ← write_msg lib w now m s
    (s'', w'', rest) ← write_all w' writes s'
    some (s'', w'', out ++ rest)

  unfoldable pub verify_all :
      VerifyWriter → List (ℕ × Msg) → Cache lib → Option (Cache lib × VerifyWriter × List Msg)
  verify_all v [] s = some (s, v, [])
  verify_all v ((now, m) ∷ writes) s = do
    (s', v', out) ← verify_write_msg lib v now m s
    (s'', v'', rest) ← verify_all v' writes s'
    some (s'', v'', out ++ rest)

  put_refresh : Item → Refresh → Cache lib → Cache lib
  put_refresh i r s = record s { refreshes = λ k. if k == (content i).id then r else s.refreshes k }

  -- beginRefresh of an item
  unfoldable pub begin : Item → ℕ → ℕ → Cache lib → Cache lib × Bool
  unfolding put_refresh
  begin i now recheck s =
      let (r, may) = begin_refresh now recheck (s.refreshes (content i).id) in
      (put_refresh i r s, may)

  -- endRefresh of an item
  unfoldable pub finish : Item → ℕ → ℕ → Bool → Cache lib → Cache lib
  unfolding put_refresh
  finish i now recheck refreshed s =
      put_refresh i (end_refresh now recheck refreshed (s.refreshes (content i).id)) s

  carry_to : Item → ℕ → Option Item → Cache lib → Cache lib
  carry_to i now none s = s
  carry_to i now (some i1) s = record s {
    freqs = λ k.
        if k == (content i1).id
        then reset now (hits (s.freqs (content i).id)) (s.freqs k)
        else s.freqs k;
  }

  -- the frequency that is carried over to the new item
  unfoldable pub carry_hits : Writer → Item → ℕ → Cache lib → Cache lib
  unfolding carry_to
  carry_hits w i now s =
      carry_to i now (exists lib w.state.name w.state.qtype w.state.qclass w.do_bit w.cd w.src s) s

  -- doPrefetch: the cache, and whether the item was refreshed
  unfoldable pub do_prefetch :
      (Request → Upstream) → Writer → Item → ℕ → Bool → Cache lib → Option (Cache lib × Bool)
  do_prefetch next w i now false s = do
    (s', w', out) ← write_all w (next w.state).writes s
    some (carry_hits w i now s', true)
  do_prefetch next w i now true s = do
    (s', v, out) ← verify_all (verify_writer w) (next w.state).writes s
    some (if v.refreshed then (carry_hits w i now s', true) else (s', false))

  -- a goroutine, from its start to its end
  unfoldable pub run_task : (Request → Upstream) → Task → Cache lib → Option (Cache lib)
  run_task next (prefetching w i now stale recheck) s = do
    (s', refreshed) ← do_prefetch next w i now stale s
    some (finish i (next w.state).ended recheck refreshed s')
  run_task next (verifying v i recheck) s = do
    (s', v', out) ← verify_all v (next v.inner.state).writes s
    some (if ltb 0 recheck then finish i (next v.inner.state).ended recheck v'.refreshed s' else s')
