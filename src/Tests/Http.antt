-- ===== src/Tests/Http.antt =====
-- Changes of the small zone over HTTP.
use coredns_ez.Prelude.{◌≡◌, refl, none, List, [], ◌∷◌, ◌⊎◌, ok, All, arith, false}
use coredns_ez.Dns.{Rr, header, soa_of, success, canonical, with_header}
use coredns_ez.Dns.Serial.{serial_greater}
use coredns_ez.Update.Prescan.{prescan}
use coredns_ez.Update.Commit.{commit_locked}
use coredns_ez.Update.Http.{
  http_updates, http_apply, error_at, is_apex_type, is_elsewhere, copy_in, soa_updates, ns_updates,
  newer_soas,
}
use coredns_ez.Update.Http.Replace.{Unchanged, http_apply-commits}
use coredns_ez.Update.Http.Soas.{NewerIfSoa, http_updates-Newer}
use coredns_ez.Tests.Fixtures.{origin, apex, apex_soa, hdr, www}
use coredns_ez.Tests.Keyed.{keyed_dns}
use coredns_ez.Tests.Updates.{plugin1, config1}

-- a stale SOA and one more address
abbrev new_records : List Rr
new_records = apex 1 ∷ www "192.0.2.2" ∷ []

http_apply-commits_example :
    Unchanged config1 plugin1 [] (http_apply config1 plugin1 new_records [] [])
    ⊎ ((updates : List Rr) × (http_updates plugin1 new_records [] ≡ ok updates)
        × (prescan origin none false updates ≡ success)
        × (http_apply config1 plugin1 new_records [] [] ≡ (
            let (ending, d', s') = commit_locked config1 plugin1 updates [] in
            (error_at ending, d', s'))))
http_apply-commits_example = http_apply-commits config1 plugin1 new_records [] []

-- the SOA gets the serial after the zone's
http_updates-Newer_example : All (NewerIfSoa origin (apex_soa 1)) (www "192.0.2.2" ∷ apex 2 ∷ [])
unfolding http_updates is_apex_type is_elsewhere copy_in header canonical soa_of soa_updates
    ns_updates newer_soas serial_greater with_header
http_updates-Newer_example =
    http_updates-Newer plugin1 new_records [] (www "192.0.2.2" ∷ apex 2 ∷ []) (hdr origin 6)
      (apex_soa 1) refl (omega arith) refl
