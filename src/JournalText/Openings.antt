-- ===== src/JournalText/Openings.antt =====
-- The $INCREMENT lines of ixfr/persist.go, written and parsed.
use coredns_ez.Prelude.{
  ℕ, suc, ◌≡◌, ◌<◌, refl, ap, ◌∙◌, some, List, [], ◌∷◌, ◌++◌, ok, ◌>>=◌, All, All-append, All-map,
  last, length-append, nat_tests, arith,
}
use coredns_ez.Dns.{Dns}
use coredns_ez.Dns.Serial.{u32_mod}
use coredns_ez.JournalText.{
  Increment, Progress, flush, begin_increment, skipped, parse_line, parse_lines,
}
use coredns_ez.JournalText.Decimal.{decimal}
use coredns_ez.JournalText.Scan.{Text, codes, is_space, fields, has_prefix}
use coredns_ez.JournalText.Digits.{
  IsDigit, decimal-IsDigit, decimal-full, decimal-short, parse_uint-decimal,
}
use coredns_ez.JournalText.Lines.{
  NoBreak, IsSolid, trim_space-solid, fields_from-word, fields_from-last, last-append-full,
  last-All,
}
-- one line that is neither too long nor empty nor a comment
use coredns_ez.JournalText.Records.{parse_lines-line, open_increment}

module _ ⦃dns : Dns⦄ where
  -- the line that opens an increment
  unfoldable pub opening : Increment → Text
  opening i = codes "$INCREMENT " ++ (decimal i.old_serial ++ b' ' ∷ decimal i.new_serial)

  abbrev pub blank_increment : Increment → Increment
  blank_increment i = record i { deleted = []; added = [] }

  digit-IsSolid : (c : ℕ) → IsDigit c → IsSolid c
  unfolding is_space
  digit-IsSolid c (p, q) = ground (arith, p, q)

  pub digit-NoBreak : (c : ℕ) → IsDigit c → NoBreak c
  digit-NoBreak c (p, q) = λ e. omega (arith, p, q, e)

  fields-opening :
      (i : Increment)
      → fields (opening i) ≡ codes "$INCREMENT" ∷ decimal i.old_serial ∷ decimal i.new_serial ∷ []
  unfolding fields opening is_space
  fields-opening i =
      fields_from-word [] (codes "$INCREMENT") (decimal i.old_serial ++ b' ' ∷ decimal i.new_serial)
        (refl, (refl, (refl, (refl, (refl, (refl, (refl, (refl, (refl, (refl, tt))))))))))
        (omega arith)
      ∙ ap (◌∷◌ (codes "$INCREMENT")) (
          fields_from-word [] (decimal i.old_serial) (decimal i.new_serial)
            (All-map (decimal i.old_serial) digit-IsSolid (decimal-IsDigit i.old_serial))
            (decimal-full i.old_serial)
          ∙ ap (◌∷◌ (decimal i.old_serial)) (
              fields_from-last [] (decimal i.new_serial)
                (All-map (decimal i.new_serial) digit-IsSolid (decimal-IsDigit i.new_serial))
                (decimal-full i.new_serial)))

  begin_increment-read :
      (n : ℕ) (i : Increment) (p : Progress)
      → i.old_serial < u32_mod
      → i.new_serial < u32_mod
      → begin_increment n (codes "$INCREMENT" ∷ decimal i.old_serial ∷ decimal i.new_serial ∷ []) p
        ≡ ok (open_increment (flush p) (blank_increment i))
  unfolding begin_increment
  begin_increment-read n i p o w =
      rw (parse_uint-decimal i.old_serial o, parse_uint-decimal i.new_serial w, begin_increment)
        refl

  parse_line-opening :
      (n : ℕ) (i : Increment) (p : Progress)
      → i.old_serial < u32_mod
      → i.new_serial < u32_mod
      → parse_line n (opening i) p ≡ ok (open_increment (flush p) (blank_increment i))
  unfolding parse_line has_prefix opening
  parse_line-opening n i p o w =
      ap (λ f. begin_increment n f p) (fields-opening i) ∙ begin_increment-read n i p o w

  last-opening : (i : Increment) → (d : ℕ) × (last (opening i) ≡ some d) × IsSolid d
  unfolding opening
  last-opening i =
      let (d, e, g) =
        last-All IsDigit (decimal i.new_serial) (decimal-IsDigit i.new_serial)
          (decimal-full i.new_serial) in
      (
        d,
        last-append-full (codes "$INCREMENT ") (decimal i.old_serial ++ b' ' ∷ decimal i.new_serial)
              (omega (arith, length-append (decimal i.old_serial) (b' ' ∷ decimal i.new_serial)))
            ∙ last-append-full (decimal i.old_serial) (b' ' ∷ decimal i.new_serial) (omega arith)
            ∙ last-append-full (b' ' ∷ []) (decimal i.new_serial) (decimal-full i.new_serial)
            ∙ e,
        digit-IsSolid d g,
      )

  pub parse_lines-opening :
      (n : ℕ) (i : Increment) (ls : List Text) (p : Progress)
      → i.old_serial < u32_mod
      → i.new_serial < u32_mod
      → parse_lines n (opening i ∷ ls) p
        ≡ parse_lines (suc n) ls (open_increment (flush p) (blank_increment i))
  unfolding opening skipped is_space
  parse_lines-opening n i ls p o w =
      let (d, e, g) = last-opening i in
      parse_lines-line n (opening i) ls p
        (omega (
          arith,
          decimal-short i.old_serial o,
          decimal-short i.new_serial w,
          length-append (decimal i.old_serial) (b' ' ∷ decimal i.new_serial),
        ))
        (trim_space-solid b'$'
          (codes "INCREMENT " ++ (decimal i.old_serial ++ b' ' ∷ decimal i.new_serial)) d refl e g)
        refl
      ∙ ap (λ x. x >>= λ q. parse_lines (suc n) ls q) (parse_line-opening n i p o w)

  pub opening-NoBreak : (i : Increment) → All NoBreak (opening i)
  unfolding opening
  opening-NoBreak i =
      All-append NoBreak (codes "$INCREMENT ") (decimal i.old_serial ++ b' ' ∷ decimal i.new_serial)
        (ground arith)
        (All-append NoBreak (decimal i.old_serial) (b' ' ∷ decimal i.new_serial)
          (All-map (decimal i.old_serial) digit-NoBreak (decimal-IsDigit i.old_serial))
          (
            (λ e. omega (arith, e)),
            All-map (decimal i.new_serial) digit-NoBreak (decimal-IsDigit i.new_serial),
          ))
