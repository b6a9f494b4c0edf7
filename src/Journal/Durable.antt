-- ===== src/Journal/Durable.antt =====
-- Commit and loadJournal (ixfr/journal.go): a journal that is written and read again.
use coredns_ez.Prelude.{
  ℕ, ◌≡◌, ◌≤◌, ◌<◌, refl, sym, ap, ◌∙◌, ◌⊎◌, inl, inr, String, true, some, List, [], ◌∷◌, ok, All,
  length, append-nil, arith, nat_tests,
}
use coredns_ez.Dns.{Rr, Dns}
use coredns_ez.Dns.Serial.{u32_mod}
use coredns_ez.JournalText.{Increment, write_journal, parse_journal}
use coredns_ez.JournalText.Scan.{Text, codes}
use coredns_ez.JournalText.Lines.{NoBreak}
use coredns_ez.JournalText.RoundTrip.{Storable, write_journal-heading, parse_journal-write_journal}
use coredns_ez.Journal.{
  Journal, JournalBackend, new_journal, serial_of, chained, chained_suffix, upto_serial, reconcile,
  ends_at, persist, load_journal, commit,
}
use coredns_ez.Journal.Reconcile.{upto_serial-append}
use coredns_ez.Journal.Commit.{IsValid, commit-Committed, commit-IsValid}

chained_suffix-whole : (incs : List Increment) → chained incs ≡ true → chained_suffix incs ≡ incs
unfolding chained_suffix
chained_suffix-whole [] h = refl
chained_suffix-whole (i ∷ incs) h = rw h refl

reconcile-whole :
    (incs : List Increment) (current : ℕ)
    → chained incs ≡ true
    → (incs ≡ []) ⊎ (ends_at current incs ≡ true)
    → reconcile incs current ≡ incs
unfolding reconcile
reconcile-whole incs current c (inl e) = rw e (unfold upto_serial chained_suffix in refl)
reconcile-whole incs current c (inr e) =
    ap (λ l. chained_suffix (upto_serial current l)) (sym (append-nil incs))
    ∙ ap chained_suffix (upto_serial-append current incs [] e tt)
    ∙ chained_suffix-whole incs c

-- what is asked of a store: it returns what it saved last
abbrev pub Returns : {S : Type 0} → JournalBackend S → Type 0
Returns {S} b =
    (origin : String) (t : Text) (s s' : S)
    → b.save origin t s ≡ some s'
    → b.load origin s' ≡ some t

module _ ⦃dns : Dns⦄ {S : Type 0} (b : JournalBackend S) where
  load_journal-text :
      (origin : String) (history : ℕ) (current : List Rr) (s : S) (t : Text) (incs : List Increment)
      → b.load origin s ≡ some t
      → 1 ≤ length t
      → parse_journal t ≡ ok incs
      → load_journal origin history current (some b) s
        ≡ ok (record (new_journal origin history current) {
          incs = reconcile incs (serial_of current);
        })
  unfolding load_journal
  load_journal-text origin history current s [] incs l full p = ground (arith, full)
  load_journal-text origin history current s (c ∷ cs) incs l full p = rw (l, p, load_journal) refl

  write_journal-full :
      (origin : String) (history current : ℕ) (is : List Increment)
      → 1 ≤ length (write_journal origin history current is)
  write_journal-full origin history current is =
      rw (write_journal-heading origin history current is) (omega arith)

  -- Let the store return what it saved last, the origin be a name of at most 255 characters without
  -- a line break, the history limit and the new serial be 32-bit numbers, and the increments that
  -- are kept be such that the library reads back what it prints. If a commit from the generation
  -- that a valid journal serves succeeds, then loading the journal for the new generation, as a
  -- restart does, gives exactly the journal that the commit left.
  pub load_journal-commit :
      (old new : List Rr) (j : Journal) (s : S) (j' : Journal) (s' : S)
      → Returns b
      → IsValid j
      → serial_of old ≡ serial_of j.current
      → commit (some b) old new (j, s) ≡ ok (j', s')
      → All NoBreak (codes j.origin)
      → length (codes j.origin) ≤ 255
      → j.history < u32_mod
      → serial_of new < u32_mod
      → All Storable j'.incs
      → load_journal j.origin j.history new (some b) s' ≡ ok j'
  unfolding persist new_journal
  load_journal-commit old new j s j' s' returns v e h name short history serial storable =
      let c = commit-Committed (some b) old new j s j' s' h in
      let (v', fits, cur) = commit-IsValid (some b) old new j s j' s' v e h in
      let t = write_journal j.origin j.history (serial_of new) j'.incs in
      load_journal-text j.origin j.history new s' t j'.incs (returns j.origin t s s' c.saved)
        (write_journal-full j.origin j.history (serial_of new) j'.incs)
        (parse_journal-write_journal j.origin j.history (serial_of new) j'.incs name short history
          serial storable)
      ∙ ap (λ l. ok (record { origin = j.origin; history = j.history; incs = l; current = new }))
          (reconcile-whole j'.incs (serial_of new) v'.chain (rw (sym cur) v'.reaches))
      ∙ ap (λ l. ok (record j { incs = l; current = new })) (ap (λ x. x.incs) c.result)
      ∙ sym (ap ok c.result)
