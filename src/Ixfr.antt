-- ===== src/Ixfr.antt =====
-- ixfr/ixfr.go: the plugin around one journal. Its mutex makes every method one step; the backend
-- and its state are handed in.
use coredns_ez.Prelude.{
  ℕ, String, Option, none, some, List, Result, ok, err, ltb, ◌==◌, text_tests, not, ◌&&◌,
  if◌then◌else◌,
}
use coredns_ez.Dns.{Rr, Dns, canonical}
use coredns_ez.Journal
use coredns_ez.Journal.{
  Journal, JournalBackend, JournalError, TransferKind, new_journal, load_journal, answer,
}

pub record Ixfr : Type 0 where
  pub zone : String  -- empty until it is registered
  pub history : ℕ
  pub journal : Option Journal

pub data IxfrError : Type 0 where
  already_registered before_register not_authoritative : IxfrError
  journal_failed : JournalError → IxfrError

abbrev pub default_history : ℕ
default_history = 64

at_least_one : ℕ → ℕ
at_least_one history = if ltb history 1 then default_history else history

module _ ⦃dns : Dns⦄ where
  -- New
  unfoldable pub new_ixfr : String → ℕ → Ixfr
  unfolding at_least_one
  new_ixfr origin history = record {
    zone = canonical origin;
    history = at_least_one history;
    journal = none;
  }

  -- A journal that cannot be loaded is replaced by an empty one.
  unfoldable pub or_new : String → ℕ → List Rr → Result JournalError Journal → Journal
  or_new origin history current (ok j) = j
  or_new origin history current (err e) = new_journal origin history current

  unfoldable pub transfer : Ixfr → String → ℕ → Result IxfrError (TransferKind × List Rr)
  transfer x zone serial = elim x.journal [
    | none ↦ err not_authoritative
    | some j ↦ if zone == x.zone then ok (answer j serial) else err not_authoritative
  ]

module _ ⦃dns : Dns⦄ {S : Type 0} (backend : Option (JournalBackend S)) where
  unfoldable pub register : Ixfr → String → List Rr → S → Result IxfrError Ixfr
  unfolding at_least_one
  register x name current s =
      let origin = canonical name in
      let history = at_least_one x.history in
      if not (x.zone == "") && not (x.zone == origin)
      then err already_registered
      else ok (record {
        zone = origin;
        history = history;
        journal =
            some (or_new origin history current (load_journal origin history current backend s));
      })

  unfoldable pub commit : Ixfr → List Rr → List Rr → S → Result IxfrError (Ixfr × S)
  commit x old new s = elim x.journal [
    | none ↦ err before_register
    | some j ↦ elim (Journal.commit backend old new (j, s)) [
      | err e ↦ err (journal_failed e)
      | ok (j', s') ↦ ok (record x { journal = some j' }, s')
    ]
  ]
