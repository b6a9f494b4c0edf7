-- ===== src/Tests/Persists.antt =====
-- Snapshots of the small zone on their way to the store.
use coredns_ez.Prelude.{refl, false, none, []}
use coredns_ez.Secondary.Persist.{Snapshot, System}
use coredns_ez.Secondary.Persist.Steps.{
  Steps, Quiet, done, next, enqueued, after_enqueue, Steps-Quiet,
}
use coredns_ez.Secondary.Persist.Race.{slot, sys}
use coredns_ez.Tests.Fixtures.{origin, gen1, gen2, gen3}

abbrev snap1 : Snapshot
snap1 = record { origin = origin; serial = 1; rrs = gen1 }

abbrev snap2 : Snapshot
snap2 = record { origin = origin; serial = 2; rrs = gen2 }

abbrev snap3 : Snapshot
snap3 = record { origin = origin; serial = 3; rrs = gen3 }

abbrev idle : System
idle = sys (slot false false 0) none []

Steps-Quiet_example : Quiet (after_enqueue snap1 idle)
Steps-Quiet_example =
    Steps-Quiet idle (after_enqueue snap1 idle)
      (next idle (after_enqueue snap1 idle) (after_enqueue snap1 idle) (enqueued snap1 idle)
        (done (after_enqueue snap1 idle)))
      (λ e. (refl, refl))
