-- ===== src/Journal/Diff.antt =====
-- Journal increments as changes of a set of records: what diffMissing computes, and what a client
-- that replays it obtains. Records are told apart by `ixfr_key`, and SOAs are not counted.
use coredns_ez.Prelude.{
  String, ◌≡◌, refl, Bool, not, ◌&&◌, ◌||◌, List, [], ◌∷◌, ok, arith, eq_iff, text_tests,
}
use coredns_ez.Dns.{Rr, Dns}
use coredns_ez.JournalText.{Increment}
use coredns_ez.Journal.{ixfr_key, have_key, diff_missing, increment_of}

module _ ⦃dns : Dns⦄ where
  -- `diff_missing a b` holds exactly the keys of `a` that `b` lacks.
  pub have_key-diff_missing :
      (k : String) (a b : List Rr)
      → have_key k (diff_missing a b) ≡ (have_key k a && not (have_key k b))
  unfolding have_key diff_missing
  have_key-diff_missing k [] b = refl
  have_key-diff_missing k (rr ∷ a) b =
      ground (arith, have_key-diff_missing k a b, eq_iff (ixfr_key rr) k)

  -- A client's view of the zone after one increment.
  abbrev pub apply_delta : Increment → (String → Bool) → String → Bool
  apply_delta i zone k = (zone k && not (have_key k i.deleted)) || have_key k i.added

  abbrev pub replay : List Increment → (String → Bool) → String → Bool
  replay [] zone = zone
  replay (i ∷ is) zone = replay is (apply_delta i zone)

  -- The increment that a commit records takes the old generation's records to the new one's.
  pub apply_delta-increment_of :
      (old new : List Rr) (i : Increment) (k : String)
      → increment_of old new ≡ ok i
      → apply_delta i (λ x. have_key x old) k ≡ have_key k new
  unfolding increment_of
  apply_delta-increment_of old new i k h =
      ground (arith, have_key-diff_missing k old new, have_key-diff_missing k new old)
