-- ===== src/Tests/Journals.antt =====
-- A journal of the three generations.
use coredns_ez.Prelude.{ℕ, ◌≤◌, ◌≡◌, refl, inl, Option, none, some, List, [], ◌∷◌, ok}
use coredns_ez.Dns.{Rr, soa_of}
use coredns_ez.Dns.Serial.{serial_newer}
use coredns_ez.JournalText.{Increment}
use coredns_ez.Journal.{
  Journal, JournalBackend, chained, reconcile, ends_at, increment_of, commit, answer, ixfr,
  serial_of, truncate, persist, ixfr_from, from_serial, delta_stream,
}
use coredns_ez.Journal.Commit.{IsValid, Tracks, now, step, commit-IsValid}
use coredns_ez.Journal.Answer.{Delta, answer-Delta}
use coredns_ez.Tests.Fixtures.{simple_dns, origin, apex, www, gen1, gen2, gen3}

abbrev pub inc12 : Increment
inc12 = record {
  old_serial = 1;
  new_serial = 2;
  deleted = www "192.0.2.1" ∷ [];
  added = www "192.0.2.2" ∷ [];
}

abbrev pub inc23 : Increment
inc23 = record { old_serial = 2; new_serial = 3; deleted = []; added = www "192.0.2.3" ∷ [] }

pub inc12_made : increment_of gen1 gen2 ≡ ok inc12
unfolding increment_of
inc12_made = refl

inc23_made : increment_of gen2 gen3 ≡ ok inc23
unfolding increment_of
inc23_made = refl

-- a stored journal with a stray increment in front and one that never became current behind
abbrev stray : Increment
stray = record { old_serial = 7; new_serial = 9; deleted = []; added = [] }

abbrev ahead : Increment
ahead = record { old_serial = 3; new_serial = 4; deleted = []; added = [] }

reconcile_kept : reconcile (stray ∷ inc12 ∷ inc23 ∷ ahead ∷ []) 3 ≡ inc12 ∷ inc23 ∷ []
unfolding reconcile
reconcile_kept = refl

abbrev at1 : Journal
at1 = record { origin = origin; history = 1; incs = []; current = gen1 }

abbrev at2 : Journal
at2 = record { origin = origin; history = 1; incs = inc12 ∷ []; current = gen2 }

-- a store of the last text saved
abbrev memory : JournalBackend (Option (List ℕ))
memory = record { load = λ o s. s; save = λ o t s. some (some t) }

-- with no backend, over a store of one unit
commit12 : commit {S = Unit {0}} none gen1 gen2 (at1, tt) ≡ ok (at2, tt)
unfolding commit increment_of truncate persist
commit12 = refl

at1-IsValid : IsValid at1
unfolding chained
at1-IsValid = record { chain = refl; reaches = inl refl }

commit-IsValid_example : IsValid at2 × (1 ≤ 1) × (gen2 ≡ gen2)
commit-IsValid_example = commit-IsValid none gen1 gen2 at1 tt at2 tt at1-IsValid refl commit12

at3 : Journal
at3 = record { origin = origin; history = 8; incs = inc12 ∷ inc23 ∷ []; current = gen3 }

at3-Tracks : Tracks (inc12 ∷ inc23 ∷ []) gen1 gen3
at3-Tracks = step gen1 gen2 inc12_made (step gen2 gen3 inc23_made (now gen3))

stream2 : List Rr
stream2 = apex 3 ∷ apex 2 ∷ apex 3 ∷ www "192.0.2.3" ∷ apex 3 ∷ []

answer2 : answer at3 2 ≡ (ixfr, stream2)
unfolding answer at3 stream2 ixfr_from from_serial soa_of delta_stream serial_of serial_newer
    ends_at
answer2 = refl

answer-Delta_example : Delta at3 gen1 2 stream2
unfolding at3
answer-Delta_example = answer-Delta at3 2 stream2 gen1 at3-Tracks answer2
