-- ===== src/Secondary/Persist/Race.antt =====
-- runPersist (secondary-persistent/persist.go) with a second worker between its last two critical
-- sections.
use coredns_ez.Prelude.{ℕ, Bool, false, Option, none, List, nat_tests}
use coredns_ez.Secondary.Persist.{Snapshot, Slot, Phase, System}
use coredns_ez.Secondary.Persist.Steps.{Steps}

abbrev pub slot : Bool → Bool → ℕ → Slot
slot w h l = record { writing = w; pending = none; has_written = h; last_serial = l }

abbrev pub sys : Slot → Option Snapshot → List Phase → System
sys k st ws = record { slot = k; stored = st; stopped = false; workers = ws }
