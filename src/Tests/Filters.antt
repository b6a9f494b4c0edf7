-- ===== src/Tests/Filters.antt =====
-- The filter of the plugin admin, on a block list with an exception.
use coredns_ez.Prelude.{
  ℕ, suc, ◌≡◌, ◌↔◌, refl, Bool, true, false, some, List, [], ◌∷◌, ◌==◌, ◌||◌, nat_tests, Any,
  if◌then◌else◌,
}
use coredns_ez.JournalText.Scan.{Text, codes, scan_raw, trim_space, line_text, has_prefix, fields}
use coredns_ez.Admin.Filter.{
  FilterRule, filter_allow, filter_block, Labels, replace, blocked, is_none, put_rule,
}
use coredns_ez.Admin.Filter.Parse.{
  parse_filter_list, parse_filter_pattern, rules_from_parsed, scanned,
}
use coredns_ez.Admin.Filter.Blocked.{IsAbout, blocked_iff}
use coredns_ez.Admin.Filter.Lists.{Lists, parse_filter_list-blocked}

abbrev dot_from : ℕ → Text → ℕ × Bool
dot_from i [] = (i, true)
dot_from i (c ∷ []) = (suc i, true)
dot_from i (c ∷ d ∷ cs) =
    let rest = dot_from (suc i) (d ∷ cs) in if c == b'.' then (suc i, false) else rest

abbrev dots : Text → ℕ
dots [] = 0
dots (c ∷ cs) = let rest = dots cs in if c == b'.' then suc rest else rest

abbrev qualified : Text → Text
qualified [] = b'.' ∷ []
qualified (c ∷ []) = if c == b'.' then b'.' ∷ [] else c ∷ b'.' ∷ []
qualified (c ∷ d ∷ cs) = c ∷ qualified (d ∷ cs)

abbrev is_digit_start : Text → Bool
is_digit_start [] = false
is_digit_start (c ∷ cs) = c == b'0' || c == b'1'

-- names without escapes, addresses that start with a digit
abbrev pub labels1 : Labels
labels1 = record {
  next_label = dot_from 0;
  canonical_name = qualified;
  is_domain_name = λ _. true;
  count_label = dots;
  is_ip = is_digit_start;
}

abbrev pub rules1 : List FilterRule
rules1 =
    record { action = filter_block; pattern = codes "ads.example."; kids_only = false; source = [] }
    ∷ record {
      action = filter_allow;
      pattern = codes "good.ads.example.";
      kids_only = true;
      source = [];
    }
    ∷ []

blocked_iff_example :
    (b : Bool) × (blocked labels1 (replace rules1) (codes "x.ads.example") ≡ some b)
    × ((b ≡ true) ↔ (
        Any (IsAbout labels1 false (codes "x.ads.example.")) rules1
        × ¬ Any (IsAbout labels1 true (codes "x.ads.example.")) rules1))
blocked_iff_example = blocked_iff labels1 rules1 (codes "x.ads.example")

blocked_child : blocked labels1 (replace rules1) (codes "x.ads.example") ≡ some true
unfolding blocked replace is_none put_rule
blocked_child = refl

allowed_grandchild : blocked labels1 (replace rules1) (codes "x.good.ads.example") ≡ some false
unfolding blocked replace is_none put_rule
allowed_grandchild = refl

blocked_parent : blocked labels1 (replace rules1) (codes "good.ads.example") ≡ some true
unfolding blocked replace is_none put_rule
blocked_parent = refl

-- a hosts line, a line for a blocker of descendants and one of all, and a comment
abbrev list1 : Text
list1 = codes "# names\n0.0.0.0 t.example # one\n*.ads.example\n||ads.example^\n"

parse_filter_list-blocked_example :
    (b : Bool) × (blocked labels1
        (replace (rules_from_parsed filter_block [] (parse_filter_list labels1 list1)))
        (codes "ads.example")
      ≡ some b)
    × ((b ≡ true) ↔ Any (Lists labels1 (codes "ads.example.")) (scanned list1))
parse_filter_list-blocked_example = parse_filter_list-blocked labels1 list1 [] (codes "ads.example")

listed_blocked :
    blocked labels1
      (replace (rules_from_parsed filter_block [] (parse_filter_list labels1 list1)))
      (codes "ads.example")
    ≡ some true
unfolding blocked replace rules_from_parsed parse_filter_list is_none scan_raw trim_space line_text
    has_prefix parse_filter_pattern fields put_rule
listed_blocked = refl
