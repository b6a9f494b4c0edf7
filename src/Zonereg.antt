-- ===== src/Zonereg.antt =====
-- internal/zonereg/zonereg.go: the index of the zones that the plugins own. The lock makes each
-- function one step. `P` and `Q` are the implementations of the interfaces Primary and Secondary.
pub mod Index
use coredns_ez.Prelude.{
  ℕ, String, Bool, true, false, not, Option, none, some, List, [], ◌∷◌, ◌++◌, map, keep, ◌==◌,
  text_tests, if◌then◌else◌,
}
use coredns_ez.Dns.{Dns, canonical}

pub data Kind : Type 0 where
  kind_none kind_primary kind_secondary : Kind

pub record Entry (P Q : Type 0) : Type 0 where
  pub kind : Kind
  pub pri : Option P
  pub sec : Option Q

pub record Registry (P Q : Type 0) : Type 0 where
  pub zones : String → Option (Entry P Q)
  pub names : List String

pub data RegisterError : Type 0 where
  empty_origin already_registered : RegisterError

-- the map entry written, or deleted
unfoldable pub put : {E : Type 0} → String → E → (String → E) → String → E
put origin e zones n = if origin == n then e else zones n

pub record Info : Type 0 where
  pub origin : String
  pub kind : Kind
  pub source : String
  pub path : String

-- canonical, which keeps the empty name
unfoldable pub origin_of : ⦃dns : Dns⦄ → String → String
origin_of origin = if origin == "" then "" else canonical origin

-- `if e.pri != nil { … }`
abbrev pub overlay :
    {X : Type 0} → (X → String × String) → Option X → String × String → String × String
overlay info none so_far = so_far
overlay info (some x) so_far = info x

module _ {P Q : Type 0} where
  unfoldable pub empty_registry : Registry P Q
  empty_registry = record { zones = λ n. none; names = [] }

  module _ ⦃dns : Dns⦄ where
    -- register: the new registry, or the error
    unfoldable pub register :
        String → Entry P Q → Registry P Q → Registry P Q × Option RegisterError
    register name e r =
        let origin = origin_of name in
        if origin == "" then (r, some empty_origin) else elim (r.zones origin) [
          | some old ↦ (r, some already_registered)
          | none ↦
              (record { zones = put origin (some e) r.zones; names = r.names ++ origin ∷ [] }, none)
        ]

    unfoldable pub register_primary :
        String → P → Registry P Q → Registry P Q × Option RegisterError
    register_primary name p r =
        register name (record { kind = kind_primary; pri = some p; sec = none }) r

    unfoldable pub register_secondary :
        String → Q → Registry P Q → Registry P Q × Option RegisterError
    register_secondary name q r =
        register name (record { kind = kind_secondary; pri = none; sec = some q }) r

    unfoldable pub unregister : String → Registry P Q → Registry P Q
    unregister name r =
        let origin = origin_of name in
        elim (r.zones origin) [
          | none ↦ r
          | some e ↦ record {
            zones = put origin none r.zones;
            names = keep (λ n. not (n == origin)) r.names;
          }
        ]

    unfoldable pub primary_of : String → Registry P Q → Option P
    primary_of name r = elim (r.zones (origin_of name)) [ none ↦ none | some e ↦ e.pri ]

    unfoldable pub secondary_of : String → Registry P Q → Option Q
    secondary_of name r = elim (r.zones (origin_of name)) [ none ↦ none | some e ↦ e.sec ]

  unfoldable pub kind_of : Option (Entry P Q) → Kind
  kind_of none = kind_none
  kind_of (some e) = e.kind

  -- Lookup, over plugin.Zones.Matches; an empty origin means that no zone matches.
  unfoldable pub lookup : (List String → String → String) → String → Registry P Q → String × Kind
  lookup matches qname r =
      let origin = matches r.names qname in
      if origin == "" then ("", kind_none) else (origin, kind_of (r.zones origin))

  -- one row of All: the secondary's source and path win
  unfoldable pub info_of :
      (P → String × String) → (Q → String × String) → String → Option (Entry P Q) → Info
  info_of pri_info sec_info n none = record { origin = n; kind = kind_none; source = ""; path = "" }
  info_of pri_info sec_info n (some e) =
      let (source, path) = overlay sec_info e.sec (overlay pri_info e.pri ("", "")) in
      record { origin = n; kind = e.kind; source = source; path = path }

  unfoldable pub all_zones :
      (P → String × String) → (Q → String × String) → Registry P Q → List Info
  all_zones pri_info sec_info r = map (λ n. info_of pri_info sec_info n (r.zones n)) r.names
