-- ===== src/JournalText/Records.antt =====
-- The record lines of ixfr/persist.go, written and parsed.
use coredns_ez.Prelude.{
  ℕ, suc, ◌+◌, ◌≡◌, ◌<◌, refl, sym, ap, ◌∙◌, true, false, some, List, [], ◌∷◌, ◌++◌, ◌⊎◌, inl, inr,
  ok, ◌>>=◌, All, length, last, append_assoc, append-nil, leb, ◌==◌, nat_tests, ◌||◌, arith,
}
use coredns_ez.Dns.{Rr, Dns}
use coredns_ez.JournalText.{
  Increment, max_line, write_records, Progress, put_record, skipped, record_line, parse_line,
  parse_lines,
}
use coredns_ez.JournalText.Scan.{Text, codes, scan_raw, line_text, trim_space, is_space, has_prefix}
use coredns_ez.JournalText.Lines.{NoBreak, IsSolid, scan_raw-line, trim_space-solid}

-- one line that is neither too long nor empty nor a comment

pub not_long : (l : Text) → length l < max_line → leb max_line (length l) ≡ false
not_long l h = ground (arith, h)

pub parse_lines-line :
    ⦃dns : Dns⦄ (n : ℕ) (l : Text) (ls : List Text) (p : Progress)
    → length l < max_line
    → trim_space (line_text l) ≡ l
    → skipped l ≡ false
    → parse_lines n (l ∷ ls) p ≡ (parse_line n l p >>= λ q. parse_lines (suc n) ls q)
unfolding parse_lines
parse_lines-line n l ls p short trim full =
    rw (not_long l short, ap skipped trim ∙ full, parse_lines)
      (ap (λ x. parse_line n x p >>= λ q. parse_lines (suc n) ls q) trim)

module _ ⦃dns : Dns⦄ where
  -- What is asked of the library: a record's text is one short line that ends in no blank, and that
  -- dns.NewRR reads as the record.
  pub record Readable (rr : Rr) : Type 0 where
    pub read : dns.new_rr (codes (dns.to_string rr)) ≡ some rr
    pub one_line : All NoBreak (codes (dns.to_string rr))
    pub end : ℕ
    pub ends : last (codes (dns.to_string rr)) ≡ some end
    pub solid : IsSolid end
    pub short : length (codes (dns.to_string rr)) + 2 < max_line

  abbrev pub open_increment : List Increment → Increment → Progress
  open_increment incs i = record { incs = incs; cur = some i }

  record_line-read :
      (n sign : ℕ) (t : Text) (rr : Rr) (p : Progress) (i : Increment) (d : ℕ)
      → (sign ≡ b'+') ⊎ (sign ≡ b'-')
      → last t ≡ some d
      → dns.new_rr t ≡ some rr
      → record_line n (sign ∷ b' ' ∷ t) p i ≡ ok (record p { cur = some (put_record sign rr i) })
  unfolding record_line
  record_line-read n sign [] rr p i d s e q = ground (arith, e)
  record_line-read n sign (c ∷ cs) rr p i d s e q = rw (signed, q) refl
    where
      signed : (sign == b'+' || sign == b'-') ≡ true
      signed = ground (arith, s)

  parse_line-record :
      (n sign : ℕ) (rr : Rr) (incs : List Increment) (i : Increment)
      → (sign ≡ b'+') ⊎ (sign ≡ b'-')
      → Readable rr
      → parse_line n (sign ∷ b' ' ∷ codes (dns.to_string rr)) (open_increment incs i)
        ≡ ok (open_increment incs (put_record sign rr i))
  unfolding parse_line has_prefix
  parse_line-record n sign rr incs i s r = elim s [
    | inl g ↦ rw g (line b'+' (inl refl))
    | inr g ↦ rw g (line b'-' (inr refl))
  ]
    where
      line :
          (c : ℕ)
          → (c ≡ b'+') ⊎ (c ≡ b'-')
          → record_line n (c ∷ b' ' ∷ codes (dns.to_string rr)) (open_increment incs i) i
            ≡ ok (open_increment incs (put_record c rr i))
      line c g =
          record_line-read n c (codes (dns.to_string rr)) rr (open_increment incs i) i r.end g
            r.ends r.read

  last-behind : (c b d : ℕ) (t : Text) → last t ≡ some d → last (c ∷ b ∷ t) ≡ some d
  last-behind c b d [] e = ground (arith, e)
  last-behind c b d (x ∷ t) e = e

  parse_lines-record :
      (n sign : ℕ) (rr : Rr) (ls : List Text) (incs : List Increment) (i : Increment)
      → (sign ≡ b'+') ⊎ (sign ≡ b'-')
      → Readable rr
      → parse_lines n ((sign ∷ b' ' ∷ codes (dns.to_string rr)) ∷ ls) (open_increment incs i)
        ≡ parse_lines (suc n) ls (open_increment incs (put_record sign rr i))
  unfolding skipped is_space
  parse_lines-record n sign rr ls incs i s r =
      parse_lines-line n (sign ∷ b' ' ∷ codes (dns.to_string rr)) ls (open_increment incs i)
        (omega (arith, r.short))
        (trim_space-solid sign (b' ' ∷ codes (dns.to_string rr)) r.end (ground (arith, s))
          (last-behind sign b' ' r.end (codes (dns.to_string rr)) r.ends) r.solid)
        (ground (arith, s))
      ∙ ap (λ o. o >>= λ q. parse_lines (suc n) ls q) (parse_line-record n sign rr incs i s r)

  unfoldable pub put_records : ℕ → List Rr → Increment → Increment
  put_records sign [] i = i
  put_records sign (rr ∷ rrs) i = put_records sign rrs (put_record sign rr i)

  scan_raw-record :
      (sign : ℕ) (rr : Rr) (rrs : List Rr) (rest : Text)
      → (sign ≡ b'+') ⊎ (sign ≡ b'-')
      → Readable rr
      → scan_raw (write_records sign (rr ∷ rrs) ++ rest)
        ≡ (sign ∷ b' ' ∷ codes (dns.to_string rr)) ∷ scan_raw (write_records sign rrs ++ rest)
  unfolding write_records
  scan_raw-record sign rr rrs rest s r =
      ap (λ x. scan_raw (sign ∷ b' ' ∷ x))
        (append_assoc (codes (dns.to_string rr)) (b'\n' ∷ write_records sign rrs) rest)
      ∙ scan_raw-line (sign ∷ b' ' ∷ codes (dns.to_string rr)) (write_records sign rrs ++ rest)
          (ground (arith, s), (ground arith, r.one_line))

  pub parse_lines-records :
      (sign : ℕ) (rrs : List Rr) (rest : Text) (n : ℕ) (incs : List Increment) (i : Increment)
      → (sign ≡ b'+') ⊎ (sign ≡ b'-')
      → All Readable rrs
      → parse_lines n (scan_raw (write_records sign rrs ++ rest)) (open_increment incs i)
        ≡ parse_lines
            (n + length rrs)
            (scan_raw rest)
            (open_increment incs (put_records sign rrs i))
  unfolding put_records write_records
  parse_lines-records sign [] rest n incs i s a =
      ap (λ k. parse_lines k (scan_raw rest) (open_increment incs i)) (omega arith)
  parse_lines-records sign (rr ∷ rrs) rest n incs i s (r, a) =
      ap (λ ls. parse_lines n ls (open_increment incs i)) (scan_raw-record sign rr rrs rest s r)
      ∙ parse_lines-record n sign rr (scan_raw (write_records sign rrs ++ rest)) incs i s r
      ∙ parse_lines-records sign rrs rest (suc n) incs (put_record sign rr i) s a
      ∙ ap
          (λ k.
            parse_lines k (scan_raw rest)
              (open_increment incs (put_records sign rrs (put_record sign rr i))))
          (omega arith)

  pub put_records-minus :
      (rrs : List Rr) (i : Increment)
      → put_records b'-' rrs i ≡ record i { deleted = i.deleted ++ rrs }
  unfolding put_records put_record
  put_records-minus [] i = ap (λ l. record i { deleted = l }) (sym (append-nil i.deleted))
  put_records-minus (rr ∷ rrs) i =
      put_records-minus rrs (record i { deleted = i.deleted ++ rr ∷ [] })
      ∙ ap (λ l. record i { deleted = l }) (append_assoc i.deleted (rr ∷ []) rrs)

  pub put_records-plus :
      (rrs : List Rr) (i : Increment) → put_records b'+' rrs i ≡ record i { added = i.added ++ rrs }
  unfolding put_records put_record
  put_records-plus [] i = ap (λ l. record i { added = l }) (sym (append-nil i.added))
  put_records-plus (rr ∷ rrs) i =
      put_records-plus rrs (record i { added = i.added ++ rr ∷ [] })
      ∙ ap (λ l. record i { added = l }) (append_assoc i.added (rr ∷ []) rrs)
