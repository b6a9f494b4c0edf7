-- ===== src/JournalText.antt =====
-- ixfr/persist.go: the text of a journal, written by writeJournal and read by parseJournal.
-- A text is the list of its code points.
pub mod Decimal
pub mod Scan
pub mod Digits
pub mod Lines
pub mod Records
pub mod Openings
pub mod RoundTrip
use coredns_ez.Prelude.{
  ℕ, suc, ◌^◌, String, Bool, true, false, Option, none, some, List, [], ◌∷◌, ◌++◌, Result, ok, err,
  ◌>>=◌, length, drop, leb, ◌==◌, nat_tests, ◌&&◌, ◌||◌, if◌then◌else◌,
}
use coredns_ez.Dns.{Rr, Dns}
use Decimal.{decimal, parse_uint}
use Scan.{Text, codes, scan_raw, line_text, trim_space, fields, has_prefix}

-- One RFC 1995 delta: the records removed and added between two serials.
pub record Increment : Type 0 where
  pub old_serial : ℕ  -- uint32
  pub new_serial : ℕ  -- uint32
  pub deleted : List Rr
  pub added : List Rr

pub data ParseError : Type 0 where
  bad_increment bad_serials outside_increment bad_prefix bad_record : ℕ → ParseError
  too_long : ParseError

-- `sc.Buffer(nil, 1<<20)`
abbrev pub max_line : ℕ
max_line = 2 ^ 20

module _ ⦃dns : Dns⦄ where
  unfoldable pub write_records : ℕ → List Rr → Text
  write_records sign [] = []
  write_records sign (rr ∷ rrs) =
      sign ∷ b' ' ∷ (codes (dns.to_string rr) ++ b'\n' ∷ write_records sign rrs)

  unfoldable pub write_increments : List Increment → Text
  unfolding write_records
  write_increments [] = []
  write_increments (i ∷ is) =
      codes "$INCREMENT "
      ++ (decimal i.old_serial
          ++ b' '
            ∷ (decimal i.new_serial
                ++ b'\n'
                  ∷ (write_records b'-' i.deleted
                      ++ (write_records b'+' i.added ++ write_increments is))))

  unfoldable pub write_journal : String → ℕ → ℕ → List Increment → Text
  unfolding write_increments
  write_journal origin history current incs =
      codes "; ixfr-journal origin="
      ++ (codes origin
          ++ (codes " current="
              ++ (decimal current
                  ++ (codes " history=" ++ (decimal history ++ b'\n' ∷ write_increments incs)))))

-- the loop's variables
pub record Progress : Type 0 where
  pub incs : List Increment
  pub cur : Option Increment

unfoldable pub flush : Progress → List Increment
flush p = elim p.cur [ none ↦ p.incs | some i ↦ p.incs ++ i ∷ [] ]

-- `$INCREMENT old new`
unfoldable pub begin_increment : ℕ → List Text → Progress → Result ParseError Progress
unfolding flush
begin_increment n (_ ∷ old ∷ new ∷ []) p = elim (parse_uint old) [
  | none ↦ err (bad_serials n)
  | some o ↦ elim (parse_uint new) [
    | none ↦ err (bad_serials n)
    | some w ↦ ok (record {
      incs = flush p;
      cur = some (record { old_serial = o; new_serial = w; deleted = []; added = [] });
    })
  ]
]
begin_increment n _ p = err (bad_increment n)

unfoldable pub put_record : ℕ → Rr → Increment → Increment
put_record sign rr i =
    if sign == b'-'
    then record i { deleted = i.deleted ++ rr ∷ [] }
    else record i { added = i.added ++ rr ∷ [] }

-- `line == "" || strings.HasPrefix(line, ";")`
unfoldable pub skipped : Text → Bool
skipped [] = true
skipped (c ∷ cs) = c == b';'

module _ ⦃dns : Dns⦄ where
  -- `+ RR` or `- RR`
  unfoldable pub record_line : ℕ → Text → Progress → Increment → Result ParseError Progress
  unfolding put_record
  record_line n (sign ∷ blank ∷ c ∷ cs) p i =
      if (sign == b'+' || sign == b'-') && blank == b' '
      then elim (dns.new_rr (c ∷ cs)) [
        | none ↦ err (bad_record n)
        | some rr ↦ ok (record p { cur = some (put_record sign rr i) })
      ]
      else err (bad_prefix n)
  record_line n _ p i = err (bad_prefix n)

  -- One trimmed line that is neither empty nor a comment.
  unfoldable pub parse_line : ℕ → Text → Progress → Result ParseError Progress
  unfolding begin_increment record_line has_prefix fields
  parse_line n line p =
      if has_prefix line (codes "$INCREMENT")
      then begin_increment n (fields line) p
      else elim p.cur [ none ↦ err (outside_increment n) | some i ↦ record_line n line p i ]

  unfoldable pub parse_lines : ℕ → List Text → Progress → Result ParseError (List Increment)
  unfolding parse_line skipped flush trim_space line_text
  parse_lines n [] p = ok (flush p)
  parse_lines n (l ∷ ls) p = elim (leb max_line (length l)) [
    | true ↦ err too_long
    | false ↦
        (let line = trim_space (line_text l) in
          elim (skipped line) [
            | true ↦ parse_lines (suc n) ls p
            | false ↦ parse_line n line p >>= λ q. parse_lines (suc n) ls q
          ])
  ]

  unfoldable pub parse_journal : Text → Result ParseError (List Increment)
  unfolding parse_lines scan_raw
  parse_journal t = parse_lines 1 (scan_raw t) (record { incs = []; cur = none })
