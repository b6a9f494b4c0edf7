-- ===== src/Admin/Filter.antt =====
-- admin/filtereng.go: the engine that says which names are blocked. A name is its code points, and
-- a map[string]struct{} is a list of its keys. NextLabel and CanonicalName of github.com/miekg/dns
-- are the parameter `Labels`.
pub mod Maps
pub mod Ancestors
pub mod Blocked
pub mod Parse
pub mod Lists
use coredns_ez.Prelude.{
  ℕ, zero, suc, Bool, true, false, Option, none, some, List, [], ◌∷◌, ◌==◌, ◌&&◌, ◌||◌, nat_tests,
  list_tests, leb, length, drop, if◌then◌else◌,
}
use coredns_ez.JournalText.Scan.{Text, codes}

-- The fields of store.FilterRule that the engine reads, and the source.
pub record FilterRule : Type 0 where
  pub action : Text
  pub pattern : Text
  pub kids_only : Bool
  pub source : Text

abbrev pub filter_allow : Text
filter_allow = codes "allow"

abbrev pub filter_block : Text
filter_block = codes "block"

-- `next_label` is dns.NextLabel from the start of a name, `is_ip` that net.ParseIP gives an
-- address.
pub record Labels : Type 0 where
  pub next_label : Text → ℕ × Bool
  pub canonical_name : Text → Text
  pub is_domain_name : Text → Bool
  pub count_label : Text → ℕ
  pub is_ip : Text → Bool

-- the keys of the four maps
pub record FilterEngine : Type 0 where
  pub allow_self : List Text
  pub block_self : List Text
  pub allow_kids : List Text
  pub block_kids : List Text

-- whether a map has a key
unfoldable pub has_pattern : Text → List Text → Bool
has_pattern p [] = false
has_pattern p (q ∷ qs) = q == p || has_pattern p qs

unfoldable pub put_pattern : Text → List Text → List Text
unfolding has_pattern
put_pattern p qs = if has_pattern p qs then qs else p ∷ qs

unfoldable pub new_filter_engine : FilterEngine
new_filter_engine = record { allow_self = []; block_self = []; allow_kids = []; block_kids = [] }

-- one round of `replace`
unfoldable pub put_rule : FilterRule → FilterEngine → FilterEngine
unfolding put_pattern
put_rule r e =
    if r.kids_only
    then (if r.action == filter_allow
        then record e { allow_kids = put_pattern r.pattern e.allow_kids }
        else record e { block_kids = put_pattern r.pattern e.block_kids })
    else if r.action == filter_allow
    then record e { allow_self = put_pattern r.pattern e.allow_self }
    else record e { block_self = put_pattern r.pattern e.block_self }

unfoldable pub put_rules : List FilterRule → FilterEngine → FilterEngine
put_rules [] e = e
put_rules (r ∷ rs) e = put_rules rs (put_rule r e)

-- `replace`, which drops what the engine had
unfoldable pub replace : List FilterRule → FilterEngine
unfolding put_rules new_filter_engine
replace rules = put_rules rules new_filter_engine

unfoldable pub is_none : List Text → Bool
is_none [] = true
is_none (p ∷ ps) = false

unfoldable pub empty : FilterEngine → Bool
unfolding is_none
empty e =
    is_none e.allow_self && is_none e.allow_kids && is_none e.block_self && is_none e.block_kids

module _ (labels : Labels) where
  open labels use {next_label, canonical_name}

  unfoldable pub parent_name : Text → Text
  parent_name name =
      let (off, end) = next_label name in
      if end || leb off 0 || leb (length name) off then [] else drop off name

  -- The loop of filterHit; `none` where the fuel runs out.
  unfoldable pub hit_parents : ℕ → List Text → List Text → Text → Option Bool
  unfolding parent_name
  hit_parents zero self kids rest = none
  hit_parents (suc fuel) self kids rest =
      let further = hit_parents fuel self kids (parent_name rest) in
      if rest == [] || rest == b'.' ∷ []
      then some false
      else if has_pattern rest self || has_pattern rest kids
      then some true
      else further

  -- A parent is shorter than its name.
  unfoldable pub filter_hit : List Text → List Text → Text → Option Bool
  unfolding hit_parents
  filter_hit self kids name =
      if has_pattern name self
      then some true
      else hit_parents (suc (length name)) self kids (parent_name name)

  unfoldable pub blocked : FilterEngine → Text → Option Bool
  unfolding filter_hit
  blocked e qname =
      if is_none e.block_self && is_none e.block_kids
      then some false
      else (let name = canonical_name qname in
          elim (filter_hit e.allow_self e.allow_kids name) [
            | none ↦ none
            | some true ↦ some false
            | some false ↦ filter_hit e.block_self e.block_kids name
          ])
