-- ===== src/JournalText/Scan.antt =====
-- The parts of bufio and strings that parseJournal calls: bufio.Scanner over lines,
-- strings.TrimSpace, strings.Fields, strings.HasPrefix.
use Prim.Native.Char.{code}
use coredns_ez.Prelude.{
  ℕ, String, Bool, true, false, List, [], ◌∷◌, ◌++◌, leb, ◌==◌, nat_tests, ◌&&◌, ◌||◌,
  if◌then◌else◌,
}

abbrev pub Text : Type 0
Text = List ℕ

abbrev pub codes : String → Text
codes String.[] = []
codes (String.◌∷◌ c s) = code c ∷ codes s

unfoldable pub push_char : ℕ → List Text → List Text
push_char c [] = (c ∷ []) ∷ []
push_char c (l ∷ ls) = (c ∷ l) ∷ ls

-- The lines, still with a `\r` at their end where there was one.
unfoldable pub scan_raw : Text → List Text
unfolding push_char
scan_raw [] = []
scan_raw (c ∷ cs) = let rest = scan_raw cs in if c == b'\n' then [] ∷ rest else push_char c rest

-- unicode.IsSpace
unfoldable pub is_space : ℕ → Bool
is_space c =
    (leb 9 c && leb c 13)
    || c == 32
    || c == 0x85
    || c == 0xa0
    || c == 0x1680
    || (leb 0x2000 c && leb c 0x200a)
    || c == 0x2028
    || c == 0x2029
    || c == 0x202f
    || c == 0x205f
    || c == 0x3000

unfoldable pub trim_left : Text → Text
unfolding is_space
trim_left [] = []
trim_left (c ∷ cs) = let rest = trim_left cs in if is_space c then rest else c ∷ cs

-- Drops the spaces at the end; a space is kept where something else follows.
unfoldable pub trim_right : Text → Text
unfolding is_space
trim_right [] = []
trim_right (c ∷ cs) = elim (trim_right cs) [
  | [] ↦ if is_space c then [] else c ∷ []
  | d ∷ ds ↦ c ∷ d ∷ ds
]

unfoldable pub trim_space : Text → Text
unfolding trim_left trim_right
trim_space t = trim_right (trim_left t)

unfoldable pub emit : Text → List Text → List Text
emit [] fs = fs
emit (c ∷ cs) fs = (c ∷ cs) ∷ fs

unfoldable pub fields_from : Text → Text → List Text
unfolding is_space emit
fields_from field [] = emit field []
fields_from field (c ∷ cs) = elim (is_space c) [
  | true ↦ emit field (fields_from [] cs)
  | false ↦ fields_from (field ++ c ∷ []) cs
]

-- strings.Fields: the runs of characters that are no spaces.
unfoldable pub fields : Text → List Text
unfolding fields_from
fields t = fields_from [] t

unfoldable pub has_prefix : Text → Text → Bool
has_prefix t [] = true
has_prefix [] (p ∷ ps) = false
has_prefix (c ∷ cs) (p ∷ ps) = let rest = has_prefix cs ps in if c == p then rest else false

unfoldable pub drop_cr : Text → Text
drop_cr [] = []
drop_cr (c ∷ []) = if c == b'\r' then [] else c ∷ []
drop_cr (c ∷ d ∷ ds) = c ∷ drop_cr (d ∷ ds)

-- A scanned line as `sc.Text()` returns it.
unfoldable pub line_text : Text → Text
unfolding drop_cr
line_text l = drop_cr l
