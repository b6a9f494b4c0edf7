-- ===== src/Secondary/Persist/Steps.antt =====
-- Every interleaving of the workers and the callers.
use coredns_ez.Prelude.{◌≡◌, refl, Bool, true, false, Option, none, List, [], ◌∷◌, ◌++◌, arith}
use coredns_ez.Secondary.Persist.{
  Snapshot, Slot, enqueue, give_up, finish_persist, Phase, fresh, going, saving, saved, closing,
  System, started, work,
}

-- the system after a caller enqueued a snapshot
abbrev pub after_enqueue : Snapshot → System → System
after_enqueue snap s =
    let (k, next) = enqueue snap s.slot in
    record s { slot = k; workers = s.workers ++ started next }

abbrev pub after_work : Bool → System → List Phase → Phase → List Phase → System
after_work saves s before w after =
    let (k, st, ws) = work saves s.stopped s.slot s.stored w in
    record s { slot = k; stored = st; workers = before ++ ws ++ after }

pub data Step : System → System → Type 0 where
  enqueued : (snap : Snapshot) (s : System) → Step s (after_enqueue snap s)
  worked :
      (saves : Bool) (s : System) (before after : List Phase) (w : Phase)
      → s.workers ≡ before ++ w ∷ after
      → Step s (after_work saves s before w after)
  closed : (s : System) → Step s (record s { stopped = true })

pub data Steps : System → System → Type 0 where
  done : (s : System) → Steps s s
  next : (s s' s'' : System) → Step s s' → Steps s' s'' → Steps s s''

-- Where no worker is left, nothing is marked as being written, and nothing waits.
abbrev pub Quiet : System → Type 0
Quiet s = s.workers ≡ [] → (s.slot.writing ≡ false) × (s.slot.pending ≡ none)

enqueue-Quiet :
    (snap : Snapshot) (k : Slot) (ws : List Phase)
    → (ws ≡ [] → (k.writing ≡ false) × (k.pending ≡ none))
    → ws ++ started (enqueue snap k).1 ≡ []
    → ((enqueue snap k).0.writing ≡ false) × ((enqueue snap k).0.pending ≡ none)
unfolding enqueue
enqueue-Quiet snap k [] h e = ground (arith, h refl, e)
enqueue-Quiet snap k (w ∷ ws) h e = ground (arith, e)

finish-Quiet :
    (k : Slot)
    → started (finish_persist k).1 ≡ []
    → ((finish_persist k).0.writing ≡ false) × ((finish_persist k).0.pending ≡ none)
unfolding finish_persist
finish-Quiet k e = ground (arith, e)

work-Quiet :
    (saves stopped : Bool) (k : Slot) (st : Option Snapshot) (w : Phase)
    → (work saves stopped k st w).2 ≡ []
    → ((work saves stopped k st w).0.writing ≡ false)
      × ((work saves stopped k st w).0.pending ≡ none)
unfolding work give_up
work-Quiet saves true k st (fresh snap) e = (refl, refl)
work-Quiet saves false k st (fresh snap) e = ground (arith, e)
work-Quiet saves stopped k st (going snap) e = ground (arith, e)
work-Quiet true stopped k st (saving snap) e = ground (arith, e)
work-Quiet false stopped k st (saving snap) e = ground (arith, e)
work-Quiet saves stopped k st (saved snap ok) e = ground (arith, e)
work-Quiet saves stopped k st closing e = finish-Quiet k e

nothing_left : (before ws after : List Phase) → before ++ ws ++ after ≡ [] → ws ≡ []
nothing_left [] [] after e = refl
nothing_left [] (w ∷ ws) after e = ground (arith, e)
nothing_left (x ∷ before) ws after e = ground (arith, e)

Step-Quiet : (s s' : System) → Step s s' → Quiet s → Quiet s'
Step-Quiet s _ (enqueued snap _) q e = enqueue-Quiet snap s.slot s.workers q e
Step-Quiet s _ (worked saves _ before after w at) q e =
    work-Quiet saves s.stopped s.slot s.stored w
      (nothing_left before (work saves s.stopped s.slot s.stored w).2 after e)
Step-Quiet s _ (closed _) q e = q e

-- However callers and workers interleave, whether or not saves fail, and whether or not the plugin
-- is closed: in every state that is reached from one in which this holds, such as the initial one,
-- when no worker is left, no snapshot waits to be written and none is marked as being written.
pub Steps-Quiet : (s s' : System) → Steps s s' → Quiet s → Quiet s'
Steps-Quiet s _ (done _) q = q
Steps-Quiet s s'' (next _ s' _ step rest) q = Steps-Quiet s' s'' rest (Step-Quiet s s' step q)
