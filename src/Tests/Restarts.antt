-- ===== src/Tests/Restarts.antt =====
-- The journal of the small zone, stored and loaded again.
use coredns_ez.Prelude.{
  ◌≡◌, refl, true, false, Bool, inl, Option, none, some, [], ◌∷◌, ok, All, arith, ◌==◌, nat_tests,
  if◌then◌else◌,
}
use coredns_ez.Dns.{Rr, Dns}
use coredns_ez.JournalText.{Increment, parse_journal, write_journal}
use coredns_ez.JournalText.Scan.{Text, codes, is_space}
use coredns_ez.JournalText.Lines.{NoBreak}
use coredns_ez.JournalText.Records.{Readable}
use coredns_ez.JournalText.RoundTrip.{Storable, parse_journal-write_journal}
use coredns_ez.Journal.{
  Journal, JournalBackend, increment_of, commit, truncate, persist, load_journal, chained,
  serial_of,
}
use coredns_ez.Journal.Commit.{IsValid}
use coredns_ez.Journal.Durable.{Returns, load_journal-commit}
use coredns_ez.Tests.Fixtures.{origin, show, same, below, www, gen1, gen2}

abbrev same_text : Text → Text → Bool
same_text [] [] = true
same_text [] (d ∷ ds) = false
same_text (c ∷ cs) [] = false
same_text (c ∷ cs) (d ∷ ds) = let rest = same_text cs ds in if c == d then rest else false

-- reads the two addresses of the zone
abbrev read_address : Text → Option Rr
read_address t =
    if same_text t (codes (show (www "192.0.2.1")))
    then some (www "192.0.2.1")
    else if same_text t (codes (show (www "192.0.2.2")))
    then some (www "192.0.2.2")
    else none

instance abbrev reading_dns : Dns
reading_dns = record {
  canonical_name = λ n. n;
  to_string = show;
  new_rr = read_address;
  is_duplicate = same;
  is_sub_domain = below;
}

abbrev inc : Increment
inc = record {
  old_serial = 1;
  new_serial = 2;
  deleted = www "192.0.2.1" ∷ [];
  added = www "192.0.2.2" ∷ [];
}

readable1 : Readable (www "192.0.2.1")
unfolding is_space
readable1 = record {
  read = refl;
  one_line = ground arith;
  end = b'1';
  ends = refl;
  solid = refl;
  short = omega arith;
}

readable2 : Readable (www "192.0.2.2")
unfolding is_space
readable2 = record {
  read = refl;
  one_line = ground arith;
  end = b'2';
  ends = refl;
  solid = refl;
  short = omega arith;
}

storable : All Storable (inc ∷ [])
storable = ((omega arith, omega arith, (readable1, tt), (readable2, tt)), tt)

one_line : All NoBreak (codes origin)
one_line = ground arith

parse_journal-write_journal_example :
    parse_journal (write_journal origin 64 2 (inc ∷ [])) ≡ ok (inc ∷ [])
parse_journal-write_journal_example =
    parse_journal-write_journal origin 64 2 (inc ∷ []) one_line (omega arith) (omega arith)
      (omega arith) storable

abbrev before : Journal
before = record { origin = origin; history = 64; incs = []; current = gen1 }

abbrev after : Journal
after = record { origin = origin; history = 64; incs = inc ∷ []; current = gen2 }

-- a store of the last text saved
abbrev memory : JournalBackend (Option Text)
memory = record { load = λ o s. s; save = λ o t s. some (some t) }

memory-Returns : Returns memory
memory-Returns o t s s' e = cc

before-IsValid : IsValid before
unfolding chained
before-IsValid = record { chain = refl; reaches = inl refl }

committed :
    commit (some memory) gen1 gen2 (before, none)
    ≡ ok (after, some (write_journal origin 64 2 (inc ∷ [])))
unfolding commit increment_of truncate persist
committed = refl

load_journal-commit_example :
    load_journal origin 64 gen2 (some memory) (some (write_journal origin 64 2 (inc ∷ [])))
    ≡ ok after
unfolding serial_of
load_journal-commit_example =
    load_journal-commit memory gen1 gen2 before none after
      (some (write_journal origin 64 2 (inc ∷ []))) memory-Returns before-IsValid refl committed
      one_line (omega arith) (omega arith) (omega arith) storable
