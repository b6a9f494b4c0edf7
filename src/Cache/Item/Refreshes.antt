-- ===== src/Cache/Item/Refreshes.antt =====
-- The refresh state of an item (split-horizon-cache/item.go), over sequences of beginnings and
-- ends.
use coredns_ez.Prelude.{
  ℕ, ◌+◌, ◌-◌, ◌≤◌, ◌<◌, ◌≡◌, refl, Bool, true, false, arith, ◌==◌, nat_tests, if◌then◌else◌,
}
use coredns_ez.Cache.Item.{Refresh, unrefreshed, begin_refresh, end_refresh, is_before}

-- an item's refresh state, and the number of refreshes that run
pub record Flight : Type 0 where
  pub refresh : Refresh
  pub running : ℕ

-- One caller asks whether it may refresh the item, or one that may has ended.
pub data Step : Flight → Flight → Type 0 where
  begins :
      (now recheck : ℕ) (f : Flight)
      → Step f (record {
        refresh = (begin_refresh now recheck f.refresh).0;
        running = f.running + (if (begin_refresh now recheck f.refresh).1 then 1 else 0);
      })
  ends :
      (now recheck : ℕ) (refreshed : Bool) (f : Flight)
      → 0 < f.running
      → Step f (record {
        refresh = end_refresh now recheck refreshed f.refresh;
        running = f.running - 1;
      })

pub data Steps (f : Flight) : Flight → Type 0 where
  here : Steps f f
  next : {g h : Flight} → Steps f g → Step g h → Steps f h

-- `refreshing` tells whether the one refresh runs
pub record Single (f : Flight) : Type 0 where
  pub at_most_one : f.running ≤ 1
  pub flagged : f.refresh.refreshing ≡ (f.running == 1)

Step-Single : {f g : Flight} → Step f g → Single f → Single g
unfolding begin_refresh end_refresh
Step-Single (begins now recheck f) s = ground (arith, s.at_most_one, s.flagged)
Step-Single (ends now recheck refreshed f h) s = ground (arith, s.at_most_one, s.flagged)

-- Of a new item, after any number of callers have asked to refresh it and any have ended, in
-- whatever order and at whatever times, at most one refresh runs, and the item's flag is set
-- exactly while it does.
pub Steps-Single : {f : Flight} → Steps (record { refresh = unrefreshed; running = 0 }) f → Single f
Steps-Single here = record { at_most_one = omega arith; flagged = refl }
Steps-Single (next st s) = Step-Single s (Steps-Single st)

-- A refresh that failed suppresses every later one until the recheck time is over, and then one may
-- start again: of the two questions whether an item may be refreshed, asked after a failed refresh
-- with a recheck time, the one before the deadline is denied and the one from the deadline on is
-- granted.
pub failed_refresh :
    (ended recheck early late : ℕ) (r : Refresh)
    → 0 < recheck
    → early < ended + recheck
    → ended + recheck ≤ late
    → ((begin_refresh early recheck (end_refresh ended recheck false r)).1 ≡ false)
      × ((begin_refresh late recheck (end_refresh ended recheck false r)).1 ≡ true)
unfolding begin_refresh end_refresh is_before
failed_refresh ended recheck early late r pos before after = ground arith
