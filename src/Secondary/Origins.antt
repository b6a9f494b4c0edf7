-- ===== src/Secondary/Origins.antt =====
-- secondary-persistent/runtime.go: zones that the HTTP API starts, stops and points at other
-- masters. They belong to a catalog of their own. The loop of transfers that StartOrigin starts,
-- and the load of the stored zone, come after what is here.
pub mod Agreement
use coredns_ez.Prelude.{
  ℕ, suc, String, Bool, true, false, Option, none, some, List, [], ◌∷◌, ◌++◌, if◌then◌else◌,
}
use coredns_ez.Dns.{Rr, Dns, canonical}
use coredns_ez.Zonereg.{put}
use coredns_ez.Secondary.Catalog.{Zone, Dynamic, Engine, put_number, remove_dynamic}

abbrev pub admin_catalog : String
admin_catalog = "admin"

pub data OriginError : Type 0 where
  no_masters already_exists not_started : OriginError

abbrev fresh_zone : List String → ℕ → Zone
fresh_zone from number = record { number = number; transfer_from = from; rrs = []; expired = false }

-- the zone installed under a new name
unfoldable pub install_origin : String → List String → Engine → Engine
install_origin origin from e = record e {
  zones = put origin (some (fresh_zone from e.next_number)) e.zones;
  names = e.names ++ origin ∷ [];
  zone_names = put_number e.next_number (some origin) e.zone_names;
  dynamic_zones =
      put origin
        (some (record { catalog = admin_catalog; member_id = origin; shutdown = e.next_number }))
        e.dynamic_zones;
  next_number = suc e.next_number;
}

module _ ⦃dns : Dns⦄ where
  unfoldable pub start_origin : String → List String → Engine → Engine × Option OriginError
  start_origin name [] e = (e, some no_masters)
  start_origin name (m ∷ from) e =
      let origin = canonical name in
      elim (e.zones origin) [
        | some z ↦ (e, some already_exists)
        | none ↦ (install_origin origin (m ∷ from) e, none)
      ]

  unfoldable pub stop_origin : String → Engine → Engine × Option OriginError
  stop_origin name e =
      let (e', removed) = remove_dynamic (canonical name) admin_catalog e in
      if removed then (e', none) else (e', some not_started)

  -- SetTransferFrom; no masters are ignored
  unfoldable pub set_transfer_from : String → List String → Engine → Engine
  set_transfer_from name [] e = e
  set_transfer_from name (m ∷ from) e =
      let origin = canonical name in
      elim (e.zones origin) [
        | none ↦ e
        | some z ↦ record e {
          zones = put origin (some (record z { transfer_from = m ∷ from })) e.zones;
        }
      ]

unfoldable pub records_for : String → Engine → List Rr
records_for origin e = elim (e.zones origin) [ none ↦ [] | some z ↦ z.rrs ]

unfoldable pub transfer_from_for : String → Engine → List String
transfer_from_for origin e = elim (e.zones origin) [ none ↦ [] | some z ↦ z.transfer_from ]
