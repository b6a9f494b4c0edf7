-- ===== src/JournalText/RoundTrip.antt =====
-- writeJournal and parseJournal (ixfr/persist.go), one after the other.
use coredns_ez.Prelude.{
  ℕ, suc, ◌+◌, ◌≡◌, ◌≤◌, ◌<◌, refl, sym, ap, ◌∙◌, String, none, List, [], ◌∷◌, ◌++◌, inl, inr, ok,
  All, All-append, All-map, length, length-append, append_assoc, append-nil, nat_tests, arith,
}
use coredns_ez.Dns.{Dns}
use coredns_ez.Dns.Serial.{u32_mod}
use coredns_ez.JournalText.{
  Increment, max_line, write_records, write_increments, write_journal, Progress, flush, skipped,
  parse_lines, parse_journal,
}
use coredns_ez.JournalText.Decimal.{decimal}
use coredns_ez.JournalText.Scan.{Text, codes, scan_raw, is_space}
use coredns_ez.JournalText.Digits.{decimal-IsDigit, decimal-short}
use coredns_ez.JournalText.Lines.{NoBreak, scan_raw-line, trim_space-head}
-- one line that is neither too long nor empty nor a comment
use coredns_ez.JournalText.Records.{
  not_long, Readable, open_increment, put_records, parse_lines-records, put_records-minus,
  put_records-plus,
}
use coredns_ez.JournalText.Openings.{
  blank_increment, opening, digit-NoBreak, parse_lines-opening, opening-NoBreak,
}

module _ ⦃dns : Dns⦄ where
  -- the text of one increment behind its opening line
  abbrev body : Increment → Text → Text
  body i rest = write_records b'-' i.deleted ++ (write_records b'+' i.added ++ rest)

  write_increments-cons :
      (i : Increment) (is : List Increment)
      → write_increments (i ∷ is) ≡ opening i ++ b'\n' ∷ body i (write_increments is)
  unfolding write_increments opening
  write_increments-cons i is =
      ap (λ x. codes "$INCREMENT " ++ x)
        (sym (
          append_assoc (decimal i.old_serial) (b' ' ∷ decimal i.new_serial)
            (b'\n' ∷ body i (write_increments is))))

  abbrev pub Storable : Increment → Type 0
  Storable i =
      (i.old_serial < u32_mod)
      × (i.new_serial < u32_mod)
      × All Readable i.deleted
      × All Readable i.added

  put_both :
      (i : Increment)
      → put_records b'+' i.added (put_records b'-' i.deleted (blank_increment i)) ≡ i
  put_both i =
      ap (put_records b'+' i.added) (put_records-minus i.deleted (blank_increment i))
      ∙ put_records-plus i.added (record i { added = [] })

  parse_lines-increment :
      (n : ℕ) (i : Increment) (rest : Text) (p : Progress)
      → Storable i
      → (k : ℕ) × (parse_lines n (scan_raw (opening i ++ b'\n' ∷ body i rest)) p
          ≡ parse_lines k (scan_raw rest) (open_increment (flush p) i))
  parse_lines-increment n i rest p (o, w, dels, adds) = (
    suc n + length i.deleted + length i.added,
    ap (λ ls. parse_lines n ls p) (scan_raw-line (opening i) (body i rest) (opening-NoBreak i))
        ∙ parse_lines-opening n i (scan_raw (body i rest)) p o w
        ∙ parse_lines-records b'-' i.deleted (write_records b'+' i.added ++ rest) (suc n) (flush p)
            (blank_increment i) (inr refl) dels
        ∙ parse_lines-records b'+' i.added rest (suc n + length i.deleted) (flush p)
            (put_records b'-' i.deleted (blank_increment i)) (inl refl) adds
        ∙ ap
            (λ j.
              parse_lines (suc n + length i.deleted + length i.added) (scan_raw rest)
                (open_increment (flush p) j))
            (put_both i),
  )

  parse_lines-increments :
      (is : List Increment) (n : ℕ) (p : Progress)
      → All Storable is
      → parse_lines n (scan_raw (write_increments is)) p ≡ ok (flush p ++ is)
  unfolding write_increments scan_raw parse_lines flush
  parse_lines-increments [] n p a = ap ok (sym (append-nil (flush p)))
  parse_lines-increments (i ∷ is) n p (s, a) =
      let (k, e) = parse_lines-increment n i (write_increments is) p s in
      ap (λ t. parse_lines n (scan_raw t) p) (write_increments-cons i is)
      ∙ e
      ∙ parse_lines-increments is k (open_increment (flush p) i) a
      ∙ ap ok (append_assoc (flush p) (i ∷ []) is)

  parse_lines-comment :
      (n : ℕ) (l : Text) (ls : List Text) (p : Progress)
      → length (b';' ∷ l) < max_line
      → parse_lines n ((b';' ∷ l) ∷ ls) p ≡ parse_lines (suc n) ls p
  unfolding parse_lines skipped is_space
  parse_lines-comment n l ls p short =
      let (r, e) = trim_space-head b';' l refl in
      rw (not_long (b';' ∷ l) short, ap skipped e, parse_lines) refl

nested : (a x r y : Text) → y ≡ x ++ r → a ++ y ≡ (a ++ x) ++ r
nested a x r y h = ap (λ z. a ++ z) h ∙ sym (append_assoc a x r)

-- the first line, behind its semicolon
unfoldable pub heading : String → ℕ → ℕ → Text
heading origin history current =
    codes " ixfr-journal origin="
    ++ (codes origin
        ++ (codes " current=" ++ (decimal current ++ (codes " history=" ++ decimal history))))

module _ ⦃dns : Dns⦄ where
  heading-NoBreak :
      (origin : String) (history current : ℕ)
      → All NoBreak (codes origin)
      → All NoBreak (b';' ∷ heading origin history current)
  unfolding heading
  heading-NoBreak origin history current a = (
    (λ e. omega (arith, e)),
    All-append NoBreak (codes " ixfr-journal origin=") _ (ground arith) (
        All-append NoBreak (codes origin) _ a (
          All-append NoBreak (codes " current=") _ (ground arith) (
            All-append NoBreak (decimal current) _
              (All-map (decimal current) digit-NoBreak (decimal-IsDigit current))
              (All-append NoBreak (codes " history=") (decimal history) (ground arith)
                (All-map (decimal history) digit-NoBreak (decimal-IsDigit history)))))),
  )

  heading-short :
      (origin : String) (history current : ℕ)
      → length (codes origin) ≤ 255
      → history < u32_mod
      → current < u32_mod
      → length (b';' ∷ heading origin history current) < max_line
  unfolding heading
  heading-short origin history current o h c = omega (
    arith,
    o,
    decimal-short history h,
    decimal-short current c,
    length-append (codes origin)
        (codes " current=" ++ (decimal current ++ (codes " history=" ++ decimal history))),
    length-append (decimal current) (codes " history=" ++ decimal history),
  )

  pub write_journal-heading :
      (origin : String) (history current : ℕ) (is : List Increment)
      → write_journal origin history current is
        ≡ (b';' ∷ heading origin history current) ++ b'\n' ∷ write_increments is
  unfolding write_journal heading
  write_journal-heading origin history current is =
      let r = b'\n' ∷ write_increments is in
      nested (codes "; ixfr-journal origin=") _ r _ (
        nested (codes origin) _ r _ (
          nested (codes " current=") _ r _ (
            nested (decimal current) _ r _
              (nested (codes " history=") (decimal history) r (decimal history ++ r) refl))))

  -- Let the origin be a name of at most 255 characters without a line break, the numbers 32-bit
  -- ones, and let the library print each record of the increments as one line of less than a
  -- megabyte that ends in no blank, and read it back as that record. Then the text that is written
  -- for a journal is parsed without an error, to exactly its increments, in their order.
  pub parse_journal-write_journal :
      (origin : String) (history current : ℕ) (is : List Increment)
      → All NoBreak (codes origin)
      → length (codes origin) ≤ 255
      → history < u32_mod
      → current < u32_mod
      → All Storable is
      → parse_journal (write_journal origin history current is) ≡ ok is
  unfolding parse_journal
  parse_journal-write_journal origin history current is one_line short h c a =
      ap parse_journal (write_journal-heading origin history current is)
      ∙ ap (λ ls. parse_lines 1 ls (record { incs = []; cur = none }))
          (scan_raw-line (b';' ∷ heading origin history current) (write_increments is)
            (heading-NoBreak origin history current one_line))
      ∙ parse_lines-comment 1 (heading origin history current) (scan_raw (write_increments is))
          (record { incs = []; cur = none }) (heading-short origin history current short h c)
      ∙ parse_lines-increments is 2 (record { incs = []; cur = none }) a
