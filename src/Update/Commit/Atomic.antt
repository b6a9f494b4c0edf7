-- ===== src/Update/Commit/Atomic.antt =====
-- What a commit comes to: for the zone, for what is served of it, and for the store.
use coredns_ez.Prelude.{
  suc, ◌≡◌, ◌≢◌, Option-cases, refl, sym, ap, ◌∙◌, ◌⊎◌, inl, inr, Bool, true, false, Option, none,
  some, List, arith, if◌then◌else◌,
}
use mathlib.Core.Path.{subst}
use coredns_ez.Dns.{Header, Soa, Rr, Rcode, success, server_failure, Dns, soa_of}
use coredns_ez.Update.Zone.{bump_serial}
use coredns_ez.Update.Apply.{apply}
use coredns_ez.Update.Commit.{
  UpdatePersist, Config, Persisted, failed, saved, log_panic, Ending, returned, panicked, swap,
  persist_updated, journal_commit, finish_commit, store_and_swap, commit_locked,
}

-- The zone and what is served of it are as before.
pub record Unmoved (d d' : UpdatePersist) : Type 0 where
  pub rrs : d'.rrs ≡ d.rrs
  pub view : d'.view ≡ d.view
  pub epoch : d'.epoch ≡ d.epoch

-- The store took a list of records.
abbrev pub Accepted : {S : Type 0} → Config S → List Rr → S → S → Type 0
Accepted {S} c updated s s' =
    (save : List Rr → S → Option S) × (c.persist_fn ≡ some save) × (save updated s ≡ some s')

-- The zone is `updated`, is served so, and was accepted by the store.
pub record Installed {S : Type 0} (c : Config S) (updated : List Rr) (d : UpdatePersist) (s : S)
    (d' : UpdatePersist) : Type 0 where
  pub rrs : d'.rrs ≡ updated
  pub view : d'.view ≡ updated
  pub epoch : d'.epoch ≡ suc d.epoch
  pub has_soa : soa_of updated ≢ none
  pub stored : S
  pub accepted : Accepted c updated s stored

swap-Installed :
    {S : Type 0} (c : Config S) (d : UpdatePersist) (updated : List Rr) (d' : UpdatePersist)
    → swap c d updated ≡ some d'
    → (d'.rrs ≡ updated) × (d'.view ≡ updated) × (d'.epoch ≡ suc d.epoch)
unfolding swap
swap-Installed c d updated d' h = ground arith

module _ ⦃dns : Dns⦄ {S : Type 0} (c : Config S) where
  journal_commit-Unmoved :
      (d : UpdatePersist) (updated : List Rr) (s : S) (d' : UpdatePersist) (s' : S)
      → journal_commit c d updated s ≡ some (d', s')
      → Unmoved d d'
  unfolding journal_commit
  journal_commit-Unmoved d updated s d' s' h = ground arith

  -- what a commit that has something to write comes to
  abbrev pub Ends : UpdatePersist → List Rr → S → Ending Rcode × UpdatePersist × S → Type 0
  Ends d updated s (ending, d', s') =
      ((ending ≡ returned success) × Installed c updated d s d')
      ⊎ (((ending ≡ returned server_failure) × Unmoved d d')
          ⊎ ((ending ≡ panicked) × (d' ≡ d) × (soa_of updated ≡ none) × Accepted c updated s s'))

  -- what there is to know of a store that has saved, and of one that has and then panicked
  abbrev Saved : List Rr → S → Persisted S → Type 0
  Saved updated s failed = Unit
  Saved updated s (saved s') = (soa_of updated ≢ none) × Accepted c updated s s'
  Saved updated s (log_panic s') = (soa_of updated ≡ none) × Accepted c updated s s'

  saves :
      (updated : List Rr) (s : S) (save : List Rr → S → Option S)
      → c.persist_fn ≡ some save
      → (o : Option S) → save updated s ≡ o
      → (x : Option (Header × Soa)) → soa_of updated ≡ x
      → persist_updated c updated s
        ≡ (elim o [ none ↦ failed | some s' ↦ elim x [ none ↦ log_panic s' | some y ↦ saved s' ] ])
  unfolding persist_updated
  saves updated s save e none p x q = rw (e, p, persist_updated) refl
  saves updated s save e (some s') p x q = rw (e, p, q, persist_updated) refl

  fails : (updated : List Rr) (s : S) → c.persist_fn ≡ none → persist_updated c updated s ≡ failed
  unfolding persist_updated
  fails updated s e = rw (e, persist_updated) refl

  persist_updated-Saved :
      (updated : List Rr) (s : S) → Saved updated s (persist_updated c updated s)
  persist_updated-Saved updated s = elim (Option-cases c.persist_fn) [
    | inl e ↦ subst (Saved updated s) (sym (fails updated s e)) tt
    | inr (save, e) ↦ elim (Option-cases (save updated s)) [
      | inl refused ↦ subst (Saved updated s) (sym (saves updated s save e none refused _ refl)) tt
      | inr (s', took) ↦ elim (Option-cases (soa_of updated)) [
        | inl no_soa ↦
            subst (Saved updated s) (sym (saves updated s save e (some s') took none no_soa))
              (no_soa, (save, e, took))
        | inr (x, has) ↦
            subst (Saved updated s) (sym (saves updated s save e (some s') took (some x) has))
              (λ n. absurd (cc (has, n)), (save, e, took))
      ]
    ]
  ]

  finish_commit-Ends :
      (d d' : UpdatePersist) (updated : List Rr) (s s' s'' : S)
      → (soa_of updated ≢ none) × Accepted c updated s s'
      → Unmoved d d'
      → Ends d updated s (finish_commit c d' updated s'')
  unfolding finish_commit
  finish_commit-Ends d d' updated s s' s'' (has, p) u = split (swap c d' updated) refl
    where
      split :
          (o : Option UpdatePersist)
          → swap c d' updated ≡ o
          → Ends d updated s (finish_commit c d' updated s'')
      split none q = rw (q, finish_commit) (inr (inl (refl, u)))
      split (some d'') q =
          let (rrs, view, epoch) = swap-Installed c d' updated d'' q in
          rw (q, finish_commit)
            (inl (
              refl,
              record {
                rrs = rrs;
                view = view;
                epoch = epoch ∙ ap suc u.epoch;
                has_soa = has;
                stored = s';
                accepted = p;
              },
            ))

  store_and_swap-Ends :
      (d : UpdatePersist) (updated : List Rr) (s : S)
      → Ends d updated s (store_and_swap c d updated s)
  unfolding store_and_swap
  store_and_swap-Ends d updated s =
      stored (persist_updated c updated s) refl (persist_updated-Saved updated s)
    where
      unmoved : Unmoved d d
      unmoved = record { rrs = refl; view = refl; epoch = refl }

      journaled :
          (s' : S)
          → persist_updated c updated s ≡ saved s'
          → (soa_of updated ≢ none) × Accepted c updated s s'
          → (o : Option (UpdatePersist × S)) → journal_commit c d updated s' ≡ o
          → Ends d updated s (store_and_swap c d updated s)
      journaled s' p a none q = rw (p, q, store_and_swap) (inr (inl (refl, unmoved)))
      journaled s' p a (some (d', s'')) q =
          rw (p, q, store_and_swap)
            (finish_commit-Ends d d' updated s s' s'' a
              (journal_commit-Unmoved d updated s' d' s'' q))

      stored :
          (o : Persisted S)
          → persist_updated c updated s ≡ o
          → Saved updated s o
          → Ends d updated s (store_and_swap c d updated s)
      stored failed p a = rw (p, store_and_swap) (inr (inl (refl, unmoved)))
      stored (log_panic s') p (none_left, took) =
          rw (p, store_and_swap) (inr (inr (refl, refl, none_left, took)))
      stored (saved s') p a = journaled s' p a (journal_commit c d updated s') refl

  -- A commit whose updates change nothing succeeds and touches nothing. One that changes something
  -- succeeds, and then the new zone with its serial bumped has an SOA, is what the store accepted
  -- and is what is served from then on; or it reports SERVFAIL, and zone and view are as before; or
  -- it panics, and then the new zone has no SOA, the store has accepted it, and zone and view are
  -- as before.
  pub commit_locked-Ends :
      (d : UpdatePersist) (updates : List Rr) (s : S)
      → let out = apply d.zone d.rrs updates in
        let result = commit_locked c d updates s in
        ((out.1 ≡ false) × (result ≡ (returned success, d, s)))
        ⊎ ((out.1 ≡ true) × Ends d (bump_serial out.0) s result)
  unfolding commit_locked
  commit_locked-Ends d updates s = split (apply d.zone d.rrs updates).1 refl
    where
      updated : List Rr
      updated = bump_serial (apply d.zone d.rrs updates).0

      split :
          (b : Bool)
          → (apply d.zone d.rrs updates).1 ≡ b
          → let result =
              if (apply d.zone d.rrs updates).1
              then store_and_swap c d updated s
              else (returned success, d, s) in
            (((apply d.zone d.rrs updates).1 ≡ false) × (result ≡ (returned success, d, s)))
            ⊎ (((apply d.zone d.rrs updates).1 ≡ true) × Ends d updated s result)
      split true q = rw (q) (inr (refl, store_and_swap-Ends d updated s))
      split false q = rw (q) (inl (refl, refl))

  store_and_swap-none :
      (d : UpdatePersist) (updated : List Rr) (s s' : S)
      → persist_updated c updated s ≡ saved s'
      → journal_commit c d updated s' ≡ none
      → store_and_swap c d updated s ≡ (returned server_failure, d, s')
  unfolding store_and_swap
  store_and_swap-none d updated s s' p q = rw (p, q, store_and_swap) refl

  -- If the journal refuses a generation that the store has accepted, the update reports SERVFAIL,
  -- the zone stays as it was, and the store keeps the new generation.
  pub journal_failure :
      (d : UpdatePersist) (updates : List Rr) (s s' : S)
      → (apply d.zone d.rrs updates).1 ≡ true
      → persist_updated c (bump_serial (apply d.zone d.rrs updates).0) s ≡ saved s'
      → journal_commit c d (bump_serial (apply d.zone d.rrs updates).0) s' ≡ none
      → commit_locked c d updates s ≡ (returned server_failure, d, s')
  unfolding commit_locked
  journal_failure d updates s s' changed p q =
      rw (changed) (store_and_swap-none d (bump_serial (apply d.zone d.rrs updates).0) s s' p q)
