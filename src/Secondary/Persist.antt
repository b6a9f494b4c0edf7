-- ===== src/Secondary/Persist.antt =====
-- secondary-persistent/persist.go: how snapshots of a zone get to the store. The maps writing,
-- pending, hasWritten and lastSerial are read and written only at the zone's own name, so the state
-- of one name is kept here as one record.
pub mod Steps
pub mod Race
use coredns_ez.Prelude.{
  ℕ, String, Bool, true, false, not, Option, none, some, List, [], ◌∷◌, ◌==◌, nat_tests, ◌&&◌, ◌||◌,
  if◌then◌else◌,
}
use coredns_ez.Dns.{Rr}
use coredns_ez.Dns.Serial.{less}

-- zoneSnapshot, with the records that dumpRRsLocked lists
pub record Snapshot : Type 0 where
  pub origin : String
  pub serial : ℕ  -- uint32
  pub rrs : List Rr

pub record Slot : Type 0 where
  pub writing : Bool
  pub pending : Option Snapshot
  pub has_written : Bool
  pub last_serial : ℕ

-- Enqueueing: the snapshot for which a worker is started, if one is.
unfoldable pub enqueue : Snapshot → Slot → Slot × Option Snapshot
enqueue snap k =
    if k.has_written && k.last_serial == snap.serial
    then (k, none)
    else if k.writing
    then (record k { pending = some snap }, none)
    else (record k { writing = true }, some snap)

-- the branch of runPersist once the plugin is closed
unfoldable pub give_up : Slot → Slot
give_up k = record k { writing = false; pending = none }

unfoldable pub is_stale : Snapshot → Slot → Bool
is_stale snap k = k.has_written && not (less k.last_serial snap.serial)

-- the second critical section of runPersist: what Save returned
unfoldable pub record_save : Snapshot → Bool → Slot → Slot
record_save snap false k = record k { writing = false }
record_save snap true k = record k {
  writing = false;
  has_written = true;
  last_serial = snap.serial;
}

-- finishPersist: the snapshot for which a worker is started, if one is
unfoldable pub finish_persist : Slot → Slot × Option Snapshot
finish_persist k = elim k.pending [
  | none ↦ (record k { writing = false }, none)
  | some snap ↦
      if not k.has_written || less k.last_serial snap.serial
      then (record k { writing = true; pending = none }, some snap)
      else (record k { writing = false; pending = none }, none)
]

unfoldable pub mark_written : ℕ → Slot → Slot
mark_written serial k = record k { has_written = true; last_serial = serial }

-- removePersistFile, without the store's Remove; a deleted serial reads as 0
unfoldable pub forget : Slot → Slot
forget k = record k { has_written = false; last_serial = 0; pending = none }

-- Where a worker is: between two points at which others can be seen.
pub data Phase : Type 0 where
  fresh going saving : Snapshot → Phase
  saved : Snapshot → Bool → Phase
  closing : Phase

-- One zone name: its slot, what the store holds for it, the workers, and whether the plugin is
-- closed.
pub record System : Type 0 where
  pub slot : Slot
  pub stored : Option Snapshot
  pub stopped : Bool
  pub workers : List Phase

abbrev pub started : Option Snapshot → List Phase
started none = []
started (some snap) = fresh snap ∷ []

-- the next stretch of a worker, given whether the store would accept a save: the slot, the store,
-- and what becomes of the worker
unfoldable pub work :
    Bool → Bool → Slot → Option Snapshot → Phase → Slot × Option Snapshot × List Phase
work saves true k st (fresh snap) = (give_up k, st, [])
work saves false k st (fresh snap) = (k, st, going snap ∷ [])
work saves stopped k st (going snap) =
    (k, st, (if is_stale snap k then closing else saving snap) ∷ [])
work true stopped k st (saving snap) = (k, some snap, saved snap true ∷ [])
work false stopped k st (saving snap) = (k, st, saved snap false ∷ [])
work saves stopped k st (saved snap ok) = (record_save snap ok k, st, closing ∷ [])
work saves stopped k st closing = let (k', next) = finish_persist k in (k', st, started next)
