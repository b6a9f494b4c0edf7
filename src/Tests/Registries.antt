-- ===== src/Tests/Registries.antt =====
-- A registry of two zones.
use coredns_ez.Prelude.{String, refl, inl, inr, some, none, List, [], ◌∷◌, arith, eq_iff}
use coredns_ez.Zonereg.{kind_primary, kind_secondary, Entry, Registry}
use coredns_ez.Zonereg.Index.{
  Op, registering, unregistering, Indexed, MatchesListed, run_all, run_all-Indexed,
}
use coredns_ez.Tests.Fixtures.{simple_dns}

abbrev primary : Entry String String
primary = record { kind = kind_primary; pri = some "p"; sec = none }

abbrev secondary : Entry String String
secondary = record { kind = kind_secondary; pri = none; sec = some "s" }

abbrev registry0 : Registry String String
registry0 = record { zones = λ n. none; names = [] }

abbrev ops : List (Op String String)
ops =
    registering "example.org." primary
    ∷ registering "example.com." secondary
    ∷ registering "example.org." secondary
    ∷ unregistering "example.org."
    ∷ []

run_all-Indexed_example : Indexed (run_all ops registry0)
run_all-Indexed_example = run_all-Indexed ops registry0 (λ n. refl)

-- the first zone of the list, whatever is asked for
abbrev first : List String → String → String
first [] qname = ""
first (n ∷ names) qname = n

first-listed : MatchesListed first
first-listed [] qname = inl refl
first-listed (n ∷ names) qname = inr (ground (arith, eq_iff n n))
