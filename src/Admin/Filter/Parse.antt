-- ===== src/Admin/Filter/Parse.antt =====
-- admin/filterparse.go: patterns of names, and lists of them in the formats of hosts files and of
-- ad blockers. A text is its code points. bufio.Scanner stops at a line that does not fit its
-- buffer, and nobody asks it why.
use coredns_ez.Prelude.{
  ℕ, ◌+◌, Bool, true, false, not, Option, none, some, List, [], ◌∷◌, ◌==◌, ◌&&◌, ◌||◌, nat_tests,
  list_tests, leb, ltb, length, drop, if◌then◌else◌, Result, ok, err,
}
use coredns_ez.JournalText.Scan.{Text, codes, scan_raw, line_text, trim_space, fields, has_prefix}
use coredns_ez.Admin.Filter.{FilterRule, Labels, has_pattern}

pub record ParsedPattern : Type 0 where
  pub pattern : Text
  pub kids_only : Bool

pub data PatternError : Type 0 where
  empty_domain invalid_domain inner_wildcard not_a_domain too_few_labels reserved_name :
      PatternError

abbrev pub filter_skip_names : List Text
filter_skip_names =
    codes "localhost."
    ∷ codes "localhost.localdomain."
    ∷ codes "local."
    ∷ codes "broadcasthost."
    ∷ codes "ip6-localhost."
    ∷ codes "ip6-loopback."
    ∷ codes "ip6-allnodes."
    ∷ codes "ip6-allrouters."
    ∷ codes "ip6-allhosts."
    ∷ codes "localdomain."
    ∷ []

-- strings.ToLower on ASCII
unfoldable pub lower_codes : Text → Text
lower_codes [] = []
lower_codes (c ∷ cs) = (if leb b'A' c && leb c b'Z' then c + 32 else c) ∷ lower_codes cs

-- strings.TrimPrefix
unfoldable pub trim_prefix : Text → Text → Text
trim_prefix t p = if has_prefix t p then drop (length p) t else t

unfoldable pub has_code : ℕ → Text → Bool
has_code c [] = false
has_code c (d ∷ ds) = d == c || has_code c ds

-- s[:i] for the first i that strings.IndexAny finds, or s
unfoldable pub before_any : List ℕ → Text → Text
unfolding has_code
before_any stops [] = []
before_any stops (c ∷ cs) =
    let rest = before_any stops cs in if has_code c stops then [] else c ∷ rest

unfoldable pub trim_dots_left : Text → Text
trim_dots_left [] = []
trim_dots_left (c ∷ cs) = let rest = trim_dots_left cs in if c == b'.' then rest else c ∷ cs

unfoldable pub trim_dots_right : Text → Text
trim_dots_right [] = []
trim_dots_right (c ∷ cs) = elim (trim_dots_right cs) [
  | [] ↦ if c == b'.' then [] else c ∷ []
  | d ∷ ds ↦ c ∷ d ∷ ds
]

-- strings.Trim(s, ".")
unfoldable pub trim_dots : Text → Text
unfolding trim_dots_left trim_dots_right
trim_dots t = trim_dots_right (trim_dots_left t)

-- what is left of a URL or a domain as it was entered
unfoldable pub host_part : Text → Text
unfolding trim_prefix before_any
host_part raw = trim_space (
    before_any (codes "/?#")
      (trim_prefix (trim_prefix (trim_space raw) (codes "http://")) (codes "https://")))

unfoldable pub find_seen : Text → List ParsedPattern → Option ParsedPattern
find_seen k [] = none
find_seen k (q ∷ qs) = let rest = find_seen k qs in if q.pattern == k then some q else rest

unfoldable pub put_seen : ParsedPattern → List ParsedPattern → List ParsedPattern
put_seen p [] = p ∷ []
put_seen p (q ∷ qs) =
    let rest = put_seen p qs in if q.pattern == p.pattern then p ∷ qs else q ∷ rest

-- A pattern for the name itself stays; one for descendants only gives way.
unfoldable pub see : ParsedPattern → List ParsedPattern → List ParsedPattern
unfolding find_seen put_seen
see p seen = elim (find_seen p.pattern seen) [
  | none ↦ put_seen p seen
  | some existing ↦ if not existing.kids_only then seen else put_seen p seen
]

abbrev pub max_line : ℕ
max_line = 1048576

-- the lines that sc.Scan gets to
unfoldable pub readable : List Text → List Text
readable [] = []
readable (l ∷ ls) =
    let rest = readable ls in if ltb (length l) max_line then line_text l ∷ rest else []

unfoldable pub scanned : Text → List Text
unfolding readable
scanned t = readable (scan_raw t)

module _ (labels : Labels) where
  open labels use {canonical_name, is_domain_name, count_label, is_ip}

  -- the tests of parseFilterPattern on the name itself
  check_name : Bool → Text → Result PatternError ParsedPattern
  unfolding lower_codes has_pattern
  check_name kids s =
      let name = lower_codes (canonical_name s) in
      if not (is_domain_name name)
      then err invalid_domain
      else if ltb (count_label name) 2
      then err too_few_labels
      else if has_pattern name filter_skip_names
      then err reserved_name
      else ok (record { pattern = name; kids_only = kids })

  check_domain : Bool → Text → Result PatternError ParsedPattern
  unfolding check_name has_code
  check_domain kids s =
      if s == [] || s == codes "*"
      then err invalid_domain
      else if has_code b'*' s
      then err inner_wildcard
      else if is_ip s
      then err not_a_domain
      else check_name kids s

  unfoldable pub parse_filter_pattern : Text → Result PatternError ParsedPattern
  unfolding check_domain host_part trim_dots
  parse_filter_pattern raw =
      let s = host_part raw in
      if s == []
      then err empty_domain
      else if has_prefix s (codes "*.")
      then check_domain true (trim_dots (drop 2 s))
      else check_domain false (trim_dots s)

  -- the domain of a hosts line or a plain one
  of_fields : List Text → Option Text
  of_fields [] = none
  of_fields (f ∷ []) = if is_ip f then none else some f
  of_fields (f ∷ g ∷ gs) = if is_ip f then some g else some f

  after_comment : Text → Option Text
  unfolding of_fields before_any
  after_comment line =
      if line == []
      then none
      else if has_prefix line (codes "||")
      then some (before_any (codes "/$") (before_any (codes "^") (drop 2 line)))
      else of_fields (fields line)

  is_comment : Text → Bool
  is_comment [] = false
  is_comment (c ∷ cs) = c == b'#' || c == b'!' || c == b'['

  -- what parseFilterList takes from a line for a domain
  unfoldable pub candidate : Text → Option Text
  unfolding is_comment after_comment has_code before_any
  candidate raw =
      let line = trim_space raw in
      if line == [] || is_comment line || has_prefix line (codes "@@")
      then none
      else if has_code b'#' line && not (has_prefix line (codes "||"))
      then after_comment (trim_space (before_any (codes "#") line))
      else after_comment line

  unfoldable pub entry_of : Text → Option ParsedPattern
  unfolding candidate
  entry_of line = elim (candidate line) [
    | none ↦ none
    | some cand ↦ elim (parse_filter_pattern cand) [ ok p ↦ some p | err e ↦ none ]
  ]

  unfoldable pub see_line : Text → List ParsedPattern → List ParsedPattern
  unfolding entry_of see
  see_line line seen = elim (entry_of line) [ none ↦ seen | some p ↦ see p seen ]

  unfoldable pub see_lines : List Text → List ParsedPattern → List ParsedPattern
  unfolding see_line
  see_lines [] seen = seen
  see_lines (l ∷ ls) seen = see_lines ls (see_line l seen)

  -- parseFilterList; Go gives the entries of the map `seen` in any order.
  unfoldable pub parse_filter_list : Text → List ParsedPattern
  unfolding see_lines scanned
  parse_filter_list t = see_lines (scanned t) []

unfoldable pub rule_of : Text → Text → ParsedPattern → FilterRule
rule_of action source p = record {
  action = action;
  pattern = p.pattern;
  kids_only = p.kids_only;
  source = source;
}

unfoldable pub rules_from_parsed : Text → Text → List ParsedPattern → List FilterRule
unfolding rule_of
rules_from_parsed action source [] = []
rules_from_parsed action source (p ∷ ps) =
    rule_of action source p ∷ rules_from_parsed action source ps
