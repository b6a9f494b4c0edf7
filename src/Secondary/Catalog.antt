-- ===== src/Secondary/Catalog.antt =====
-- secondary-persistent/catalog.go, and removeZoneName of zones.go: the zones that catalogs bring
-- and take away. zoneMu makes each function one step.
--
-- A file.Zone is the value of a pointer that has a number of its own; it goes by the same number as
-- the channel that stops its transfers. A zone's Apex and Tree are its list of records. No nil
-- stands in the map of zones. What removePersistFile does is kept as the list of names it was
-- called for.
pub mod Owned
pub mod Same
pub mod Static
use coredns_ez.Prelude.{
  ℕ, suc, String, Bool, true, false, not, Option, none, some, List, [], ◌∷◌, ◌++◌, some_of, ◌==◌,
  nat_tests, text_tests, ◌&&◌, if◌then◌else◌,
}
use coredns_ez.Dns.{Rr, soa_of}
use coredns_ez.Zonereg.{put}

-- catalog.Member of the catalog package
pub record Member : Type 0 where
  pub zone : String
  pub id : String
  pub change_of_ownership : String

pub record Zone : Type 0 where
  pub number : ℕ
  pub transfer_from : List String
  pub rrs : List Rr
  pub expired : Bool

-- dynamicZone
pub record Dynamic : Type 0 where
  pub catalog : String
  pub member_id : String
  pub shutdown : ℕ

-- the parts of SecondaryPersist that zoneMu and catalogMu guard
pub record Engine : Type 0 where
  pub zones : String → Option Zone
  pub names : List String
  pub zone_names : ℕ → Option String
  pub dynamic_zones : String → Option Dynamic
  pub catalogs : String → Option (List Member)
  pub catalog_zones : String → Option (List String)
  pub catalog_member_zones : String → List String
  pub next_number : ℕ
  pub closed : List ℕ
  pub removed_files : List String

-- dynamicZoneStart
pub record Start : Type 0 where
  pub origin : String
  pub zone : Zone
  pub shutdown : ℕ
  pub has_data : Bool

unfoldable pub catalog_member : Option (List Member) → String → Option Member
catalog_member none zone = none
catalog_member (some []) zone = none
catalog_member (some (m ∷ ms)) zone =
    let rest = catalog_member (some ms) zone in if m.zone == zone then some m else rest

unfoldable pub has_soa : List Rr → Bool
has_soa rrs = elim (soa_of rrs) [ none ↦ false | some x ↦ true ]

unfoldable pub remove_zone_name : List String → String → List String
remove_zone_name [] name = []
remove_zone_name (n ∷ names) name =
    let rest = remove_zone_name names name in if n == name then names else n ∷ rest

unfoldable pub put_number : ℕ → Option String → (ℕ → Option String) → ℕ → Option String
put_number number name zone_names k = if number == k then name else zone_names k

-- the channel of a zone's present generation, closed
unfoldable pub stop_generation : Option Dynamic → List ℕ → List ℕ
stop_generation none closed = closed
stop_generation (some dyn) closed = dyn.shutdown ∷ closed

unfoldable pub remove_file : String → Engine → Engine
remove_file zone e = record e { removed_files = zone ∷ e.removed_files }

-- The zone that replaceDynamicZoneLocked makes: the catalog zone's masters, and the content that is
-- preserved.
unfoldable pub new_zone : ℕ → Option Zone → Option Zone → Zone
new_zone number catalog_zone preserve_from = record {
  number = number;
  transfer_from = elim catalog_zone [ none ↦ [] | some z ↦ z.transfer_from ];
  rrs = elim preserve_from [ none ↦ [] | some z ↦ z.rrs ];
  expired = elim preserve_from [ none ↦ false | some z ↦ z.expired ];
}

unfoldable pub forget_number : Option Zone → (ℕ → Option String) → ℕ → Option String
forget_number none zone_names = zone_names
forget_number (some z) zone_names = put_number z.number none zone_names

unfoldable pub list_name : String → Option Zone → List String → List String
list_name zone none names = names ++ zone ∷ []
list_name zone (some z) names = names

unfoldable pub replace_dynamic :
    Member → String → Option Zone → Option Zone → Engine → Engine × Start
replace_dynamic m origin catalog_zone preserve_from e =
    let z = new_zone e.next_number catalog_zone preserve_from in
    (
      record e {
        zones = put m.zone (some z) e.zones;
        names = list_name m.zone (e.zones m.zone) e.names;
        zone_names =
            put_number z.number (some m.zone) (forget_number (e.zones m.zone) e.zone_names);
        dynamic_zones =
            put m.zone (some (record { catalog = origin; member_id = m.id; shutdown = z.number }))
              e.dynamic_zones;
        next_number = suc e.next_number;
        closed = stop_generation (e.dynamic_zones m.zone) e.closed;
      },
      record { origin = m.zone; zone = z; shutdown = z.number; has_data = has_soa z.rrs },
    )

-- migrateCatalogMemberLocked
unfoldable pub migrate :
    Zone → Dynamic → Member → Member → String → Option Zone → Engine → Engine × Start
migrate existing dyn source target origin catalog_zone e =
    if dyn.member_id == source.id && source.id == target.id
    then replace_dynamic target origin catalog_zone (some existing) e
    else replace_dynamic target origin catalog_zone none (remove_file target.zone e)

unfoldable pub remove_dynamic : String → String → Engine → Engine × Bool
remove_dynamic zone catalog e = elim (e.dynamic_zones zone) [
  | none ↦ (e, false)
  | some dyn ↦
      if dyn.catalog == catalog
      then (
        record e {
          zones = put zone none e.zones;
          names = remove_zone_name e.names zone;
          zone_names = forget_number (e.zones zone) e.zone_names;
          dynamic_zones = put zone none e.dynamic_zones;
          closed = dyn.shutdown ∷ e.closed;
        },
        true,
      )
      else (e, false)
]

-- what becomes of a member whose zone is already there
unfoldable pub take_over : Member → String → Option Zone → Zone → Engine → Engine × List Start
take_over m origin catalog_zone existing e = elim (e.dynamic_zones m.zone) [
  | none ↦ (e, [])
  | some dyn ↦
      if dyn.catalog == origin
      then (if dyn.member_id == m.id
          then (e, [])
          else (let (e', start) =
                replace_dynamic m origin catalog_zone none (remove_file m.zone e) in
              (e', start ∷ [])))
      else elim (catalog_member (e.catalogs dyn.catalog) m.zone) [
        | none ↦ (e, [])
        | some source ↦
            if source.change_of_ownership == origin
            then (let (e', start) = migrate existing dyn source m origin catalog_zone e in
                (e', start ∷ []))
            else (e, [])
      ]
]

-- a member that is allowed
unfoldable pub apply_member : Member → String → Option Zone → Engine → Engine × List Start
apply_member m origin catalog_zone e = elim (e.zones m.zone) [
  | some existing ↦ take_over m origin catalog_zone existing e
  | none ↦ let (e', start) = replace_dynamic m origin catalog_zone none e in (e', start ∷ [])
]

module _ (matches : List String → String → String) where
  -- plugin.Zones.Matches is the parameter; no zones configured allows every member
  unfoldable pub member_allowed : Engine → String → String → Bool
  member_allowed e origin member = elim (e.catalog_zones origin) [
    | none ↦ false
    | some [] ↦ true
    | some (z ∷ zs) ↦ not (matches (z ∷ zs) member == "")
  ]

  -- the loop over the members: the engine, memberZones, and the starts
  unfoldable pub apply_members :
      String → Option Zone → List Member → Engine → Engine × List String × List Start
  apply_members origin catalog_zone [] e = (e, [], [])
  apply_members origin catalog_zone (m ∷ ms) e =
      if member_allowed e origin m.zone
      then (let (e', starts) = apply_member m origin catalog_zone e in
          let (e'', zones, starts') = apply_members origin catalog_zone ms e' in
          (e'', m.zone ∷ zones, starts ++ starts'))
      else apply_members origin catalog_zone ms e

  -- the loop over the members that the catalog had
  unfoldable pub drop_members : String → List String → List String → Engine → Engine
  drop_members origin kept [] e = e
  drop_members origin kept (zone ∷ zones) e =
      if some_of (λ k. k == zone) kept
      then drop_members origin kept zones e
      else (let (e', removed) = remove_dynamic zone origin e in
          drop_members origin kept zones (if removed then remove_file zone e' else e'))

  unfoldable pub apply_catalog : String → List Member → Option Zone → Engine → Engine × List Start
  apply_catalog origin members catalog_zone e =
      let (e', kept, starts) = apply_members origin catalog_zone members e in
      let e'' = drop_members origin kept (e'.catalog_member_zones origin) e' in
      (record e'' { catalog_member_zones = put origin kept e''.catalog_member_zones }, starts)
