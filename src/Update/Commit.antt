-- ===== src/Update/Commit.antt =====
-- dns-update-persistent: the state of the plugin (updatepersist.go), commitLocked and serveUpdate
-- (update.go).
pub mod Atomic
pub mod Serial
pub mod Wire
use coredns_ez.Prelude.{
  ℕ, suc, ◌+◌, String, Bool, true, false, not, Option, none, some, List, [], ◌∷◌, Result, ok, err,
  length, some_of, take, ◌==◌, nat_tests, text_tests, ◌&&◌, ◌||◌, if◌then◌else◌,
}
use coredns_ez.Dns.{
  Rr, type_soa, class_inet, Rcode, success, format_error, server_failure, refused, not_auth, Dns,
  canonical, soa_of,
}
use coredns_ez.Journal.{JournalBackend}
use coredns_ez.Ixfr
use coredns_ez.Ixfr.{Ixfr}
use coredns_ez.Update.Zone.{bump_serial}
use coredns_ez.Update.Prereqs.{check_prereqs}
use coredns_ez.Update.Prescan.{prescan}
use coredns_ez.Update.Apply.{apply}

-- `view` is the record list that the served file.File was built from, `epoch` the counter of
-- internal/cachegen.
pub record UpdatePersist : Type 0 where
  pub zone : String
  pub mutable : Option (ℕ → Bool)
  pub journal : Option Ixfr
  pub rrs : List Rr
  pub view : List Rr
  pub epoch : ℕ  -- uint64

-- What the plugin is configured with: the durable store of zones, the store of journals, and
-- whether file.Zone accepts every record of a list.
pub record Config (S : Type 0) : Type 0 where
  pub persist_fn : Option (List Rr → S → Option S)
  pub backend : Option (JournalBackend S)
  pub builds : String → List Rr → Bool

-- how persistUpdated ends: by an error, with the store's new state, or with that and a panic
pub data Persisted (S : Type 0) : Type 0 where
  failed : Persisted S
  saved log_panic : S → Persisted S

-- how a call ends
pub data Ending (A : Type 0) : Type 0 where
  returned : A → Ending A
  panicked : Ending A

module _ {S : Type 0} (c : Config S) where
  -- Installs a new record set; `none` if the view cannot be built.
  unfoldable pub swap : UpdatePersist → List Rr → Option UpdatePersist
  swap d rrs =
      if c.builds d.zone rrs
      then some (record d { rrs = rrs; view = rrs; epoch = suc d.epoch })
      else none

  -- Behind a save that has succeeded, the log line reads the serial of the zone's SOA.
  unfoldable pub persist_updated : List Rr → S → Persisted S
  persist_updated rrs s = elim c.persist_fn [
    | none ↦ failed
    | some save ↦ elim (save rrs s) [
      | none ↦ failed
      | some s' ↦ elim (soa_of rrs) [ none ↦ log_panic s' | some x ↦ saved s' ]
    ]
  ]

module _ ⦃dns : Dns⦄ {S : Type 0} (c : Config S) where
  -- the journal's commit, if a journal is attached
  unfoldable pub journal_commit : UpdatePersist → List Rr → S → Option (UpdatePersist × S)
  journal_commit d updated s = elim d.journal [
    | none ↦ some (d, s)
    | some x ↦ elim (Ixfr.commit c.backend x d.rrs updated s) [
      | err e ↦ none
      | ok (x', s') ↦ some (record d { journal = some x' }, s')
    ]
  ]

  -- behind the journal: the swap
  unfoldable pub finish_commit : UpdatePersist → List Rr → S → Ending Rcode × UpdatePersist × S
  finish_commit d updated s = elim (swap c d updated) [
    | none ↦ (returned server_failure, d, s)
    | some d' ↦ (returned success, d', s)
  ]

  -- A failed journal leaves what was persisted before it.
  unfoldable pub store_and_swap : UpdatePersist → List Rr → S → Ending Rcode × UpdatePersist × S
  unfolding finish_commit
  store_and_swap d updated s = elim (persist_updated c updated s) [
    | failed ↦ (returned server_failure, d, s)
    | log_panic s' ↦ (panicked, d, s')
    | saved s' ↦ elim (journal_commit d updated s') [
      | none ↦ (returned server_failure, d, s')
      | some (d', s'') ↦ finish_commit d' updated s''
    ]
  ]

  unfoldable pub commit_locked : UpdatePersist → List Rr → S → Ending Rcode × UpdatePersist × S
  unfolding store_and_swap
  commit_locked d updates s =
      let (updated, changed) = apply d.zone d.rrs updates in
      if changed then store_and_swap d (bump_serial updated) s else (returned success, d, s)

-- What the server hands over with a request: the TSIG status (`none`: the writer has no such
-- method; `some true`: no error), and the Go types of the writers from the outermost inwards.
pub record Writer : Type 0 where
  pub tsig_status : Option Bool
  pub types : List String

-- The question of the Zone section, and the other sections.
pub record Question : Type 0 where
  pub name : String
  pub qtype : ℕ
  pub qclass : ℕ

pub record Request : Type 0 where
  pub question : List Question
  pub answer : List Rr
  pub ns : List Rr
  pub has_tsig : Bool

-- strings.HasSuffix
unfoldable pub has_suffix : String → String → Bool
has_suffix String.[] suffix = suffix == String.[]
has_suffix (String.◌∷◌ c s) suffix =
    let rest = has_suffix s suffix in if String.◌∷◌ c s == suffix then true else rest

-- The tsig plugin removes the record and leaves its writer; at most 8 writers are looked at.
unfoldable pub tsig_verified : Writer → Request → Bool
unfolding has_suffix
tsig_verified w r = elim w.tsig_status [
  | none ↦ false
  | some false ↦ false
  | some true ↦
      if r.has_tsig
      then true
      else some_of (λ t. has_suffix t "tsig.restoreTsigWriter") (take 8 w.types)
]

-- exactly one question, for an SOA in class IN
unfoldable pub zone_section : Request → Option String
zone_section r = elim r.question [
  | [] ↦ none
  | q ∷ [] ↦ if q.qtype == type_soa && q.qclass == class_inet then some q.name else none
  | q ∷ q' ∷ qs ↦ none
]

module _ ⦃dns : Dns⦄ {S : Type 0} (c : Config S) where
  -- the passes over the sections, in order
  unfoldable pub update_sections : UpdatePersist → Request → S → Ending Rcode × UpdatePersist × S
  update_sections d r s = elim (check_prereqs d.rrs d.zone r.answer) [
    | success ↦ elim (prescan d.zone d.mutable true r.ns) [
      | success ↦ commit_locked c d r.ns s
      | rcode ↦ (returned rcode, d, s)
    ]
    | rcode ↦ (returned rcode, d, s)
  ]

  unfoldable pub serve_update :
      UpdatePersist → Writer → Request → S → Ending Rcode × UpdatePersist × S
  serve_update d w r s = elim (zone_section r) [
    | none ↦ (returned format_error, d, s)
    | some name ↦
        if canonical name == d.zone
        then (if tsig_verified w r then update_sections d r s else (returned refused, d, s))
        else (returned not_auth, d, s)
  ]
