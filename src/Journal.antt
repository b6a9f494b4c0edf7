-- ===== src/Journal.antt =====
-- ixfr/journal.go: the in-memory IXFR history of one origin, and the streams built from it.
-- The proofs are in the modules below. Copies of records are values, so `copyRRs` is nothing here.
pub mod Reconcile
pub mod Diff
pub mod Commit
pub mod Answer
pub mod Durable
use coredns_ez.Prelude.{
  ℕ, zero, suc, ◌-◌, String, Bool, true, false, not, Option, none, some, List, [], ◌∷◌, ◌++◌,
  Result, ok, err, ◌>>=◌, length, drop, last, some_of, keep, ltb, ◌==◌, nat_tests, text_tests, ◌||◌,
  if◌then◌else◌,
}
use coredns_ez.Dns.{
  Header, Soa, Rr, soa, other, header, with_header, is_soa, class_inet, Dns, canonical, soa_of,
}
use coredns_ez.JournalText.{Increment, ParseError, write_journal, parse_journal}
use coredns_ez.JournalText.Scan.{Text}
use coredns_ez.Dns.Serial.{serial_newer}

-- JournalBackend: a store of texts by origin, here over its state. Admin's implementation is
-- SQLite.
pub record JournalBackend (S : Type 0) : Type 0 where
  pub load : String → S → Option Text
  pub save : String → Text → S → Option S

pub data JournalError : Type 0 where
  no_soa save_failed load_failed : JournalError
  corrupt : ParseError → JournalError

pub record Journal : Type 0 where
  pub origin : String
  pub history : ℕ
  pub incs : List Increment
  pub current : List Rr

unfoldable pub new_journal : String → ℕ → List Rr → Journal
new_journal origin history current = record {
  origin = origin;
  history = history;
  incs = [];
  current = current;
}

unfoldable pub serial_of : List Rr → ℕ
unfolding soa_of
serial_of rrs = elim (soa_of rrs) [ none ↦ 0 | some (h, s) ↦ s.serial ]

unfoldable pub chained : List Increment → Bool
chained [] = true
chained (i ∷ []) = true
chained (i ∷ j ∷ rest) =
    let r = chained (j ∷ rest) in if j.old_serial == i.new_serial then r else false

-- `incs[:end+1]` for the last index at which the new serial is the current one
unfoldable pub upto_serial : ℕ → List Increment → List Increment
upto_serial current [] = []
upto_serial current (i ∷ rest) = elim (upto_serial current rest) [
  | [] ↦ if i.new_serial == current then i ∷ [] else []
  | j ∷ more ↦ i ∷ j ∷ more
]

-- the loop over `start`: the first suffix that chains
unfoldable pub chained_suffix : List Increment → List Increment
unfolding chained
chained_suffix [] = []
chained_suffix (i ∷ rest) =
    let shorter = chained_suffix rest in if chained (i ∷ rest) then i ∷ rest else shorter

unfoldable pub reconcile : List Increment → ℕ → List Increment
unfolding upto_serial chained_suffix
reconcile incs current = chained_suffix (upto_serial current incs)

module _ ⦃dns : Dns⦄ where
  unfoldable pub ixfr_key : Rr → String
  unfolding canonical header with_header
  ixfr_key rr =
      let h = header rr in
      dns.to_string (with_header (record h { name = canonical h.name; class = class_inet }) rr)

  -- whether `k` is a key of the map `have`, which diffMissing builds from `rrs`
  unfoldable pub have_key : String → List Rr → Bool
  unfolding is_soa ixfr_key
  have_key k [] = false
  have_key k (rr ∷ rrs) =
      let rest = have_key k rrs in
      if is_soa rr then rest else if ixfr_key rr == k then true else rest

  -- the records of `a` that are not in `b`, without SOAs
  unfoldable pub diff_missing : List Rr → List Rr → List Rr
  unfolding have_key
  diff_missing [] b = []
  diff_missing (rr ∷ a) b =
      let rest = diff_missing a b in
      if is_soa rr then rest else if have_key (ixfr_key rr) b then rest else rr ∷ rest

  -- The increment from one generation to the next, if both have an SOA.
  unfoldable pub increment_of : List Rr → List Rr → Result JournalError Increment
  unfolding diff_missing soa_of
  increment_of old new = elim (soa_of old) [
    | none ↦ err no_soa
    | some (_, o) ↦ elim (soa_of new) [
      | none ↦ err no_soa
      | some (_, n) ↦ ok (record {
        old_serial = o.serial;
        new_serial = n.serial;
        deleted = diff_missing old new;
        added = diff_missing new old;
      })
    ]
  ]

-- The newest `history` increments.
unfoldable pub truncate : ℕ → List Increment → List Increment
truncate history next =
    if ltb history (length next) then drop (length next - history) next else next

-- A journal may have no backend; `none` saves nothing and succeeds.
module _ ⦃dns : Dns⦄ {S : Type 0} where
  unfoldable pub persist : Option (JournalBackend S) → Journal → ℕ → List Increment → S → Option S
  persist none j serial incs s = some s
  persist (some b) j serial incs s =
      b.save j.origin (write_journal j.origin j.history serial incs) s

  unfoldable pub load_journal :
      String → ℕ → List Rr → Option (JournalBackend S) → S → Result JournalError Journal
  unfolding new_journal reconcile serial_of
  load_journal origin history current none s = ok (new_journal origin history current)
  load_journal origin history current (some b) s = elim (b.load origin s) [
    | none ↦ err load_failed
    | some [] ↦ ok (new_journal origin history current)
    | some (c ∷ cs) ↦ elim (parse_journal (c ∷ cs)) [
      | err e ↦ err (corrupt e)
      | ok incs ↦ ok (record (new_journal origin history current) {
        incs = reconcile incs (serial_of current);
      })
    ]
  ]

  -- An error leaves the journal as it was; the store is written before the journal.
  unfoldable pub commit :
      Option (JournalBackend S)
      → List Rr
      → List Rr
      → Journal × S
      → Result JournalError (Journal × S)
  commit backend old new (j, s) = elim (increment_of old new) [
    | err e ↦ err e
    | ok inc ↦
        (let next = truncate j.history (j.incs ++ inc ∷ []) in
          elim (persist backend j inc.new_serial next s) [
            | none ↦ err save_failed
            | some s' ↦ ok (record j { incs = next; current = new }, s')
          ])
  ]

pub data TransferKind : Type 0 where
  ixfr axfr uptodate : TransferKind

-- `soaWithSerial` over the current SOA
unfoldable pub soa_with_serial : Header × Soa → ℕ → Rr
soa_with_serial (h, s) serial = soa h (record s { serial = serial })

unfoldable pub axfr_rrs : List Rr → List Rr
axfr_rrs rrs = elim (soa_of rrs) [
  | none ↦ rrs
  | some (h, s) ↦ soa h s ∷ (keep (λ rr. not (is_soa rr)) rrs ++ soa h s ∷ [])
]

-- the increments from the first one that starts at `serial`; empty if none does
unfoldable pub from_serial : ℕ → List Increment → List Increment
from_serial serial [] = []
from_serial serial (i ∷ rest) =
    let later = from_serial serial rest in if i.old_serial == serial then i ∷ rest else later

-- The stream of one increment: old SOA, deletions, new SOA, additions.
unfoldable pub delta_stream : Header × Soa → List Increment → List Rr
unfolding soa_with_serial
delta_stream cur [] = []
delta_stream cur (i ∷ is) =
    soa_with_serial cur i.old_serial
    ∷ (i.deleted ++ soa_with_serial cur i.new_serial ∷ (i.added ++ delta_stream cur is))

unfoldable pub ends_at : ℕ → List Increment → Bool
ends_at serial incs = elim (last incs) [ none ↦ false | some i ↦ i.new_serial == serial ]

unfoldable pub ixfr_from : Journal → ℕ → Option (List Rr)
ixfr_from j serial = elim (from_serial serial j.incs) [
  | [] ↦ none
  | i ∷ is ↦ elim (soa_of j.current) [
    | none ↦ none
    | some (h, s) ↦
        if ends_at s.serial j.incs
        then some (soa h s ∷ (delta_stream (h, s) (i ∷ is) ++ soa h s ∷ []))
        else none
  ]
]

-- Serial 0 asks for the whole zone.
unfoldable pub answer : Journal → ℕ → TransferKind × List Rr
answer j serial =
    if serial == 0
    then (axfr, axfr_rrs j.current)
    else if serial == serial_of j.current || serial_newer serial (serial_of j.current)
    then (uptodate, elim (soa_of j.current) [ none ↦ [] | some (h, s) ↦ soa h s ∷ [] ])
    else elim (ixfr_from j serial) [
      | none ↦ (axfr, axfr_rrs j.current)
      | some stream ↦ (ixfr, stream)
    ]
