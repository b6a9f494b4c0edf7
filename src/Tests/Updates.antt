-- ===== src/Tests/Updates.antt =====
-- Updates of the small zone.
use coredns_ez.Prelude.{
  ℕ, ◌≡◌, ◌≢◌, ap, ◌≤◌, All, refl, String, true, false, none, some, inr, List, [], ◌∷◌, ◌⊎◌, length,
  keep, some_of, eq_iff, arith, ◌==◌, nat_tests,
}
use coredns_ez.Dns.{Header, Rr, soa, other, header, soa_of, success, canonical}
use coredns_ez.Dns.Serial.{serial_greater}
use coredns_ez.Update.Zone.{
  rrset_exists, name_in_use, key_of, use_counts, count_rrset, index_of_rr, rdata_key, is_of,
  same_rrset, count_key, rrset_of, in_zone, bump_serial, same_name, has_cname, delete_where,
}
use coredns_ez.Update.Prereqs.{check_prereqs, scan_prereqs, check_prereq, check_values, append_at}
use coredns_ez.Update.Prereqs.Sound.{Met, asks, times, check_prereqs-Met}
use coredns_ez.Update.Prescan.{prescan, allowed}
use coredns_ez.Update.Apply.{
  add_soa, put_soa, apply_wipe, wiped, apply, apply_rr, apply_delete, apply_add, add_rr,
}
use coredns_ez.Update.Apply.Edits.{Standing}
use coredns_ez.Update.Apply.Apex.{apply-Standing}
use coredns_ez.Update.Apply.CnameEdits.{Exclusive}
use coredns_ez.Update.Apply.Exclusive.{apply-Exclusive}
use coredns_ez.Update.Apply.Foreign.{foreign_soa}
use coredns_ez.Update.Apply.Policy.{wipe_passes_policy}
use coredns_ez.Update.Commit.{
  UpdatePersist, Config, returned, panicked, Writer, Request, serve_update, commit_locked,
  store_and_swap, finish_commit, swap, journal_commit, persist_updated,
}
use coredns_ez.Update.Commit.Atomic.{Ends, commit_locked-Ends}
use coredns_ez.Update.Commit.Serial.{bumped, commit_locked-newer}
use coredns_ez.Update.Commit.Wire.{Admitted, Rejected, serve_update-Admitted}
use coredns_ez.Tests.Fixtures.{origin, apex, apex_soa, apex_ns, hdr, www, gen1}
use coredns_ez.Tests.Keyed.{keyed_dns, keyed_tell}

-- the deletion of one address, and of the apex NS
abbrev drop_www : Rr
drop_www = other (record (hdr "www.example.org." 1) { class = 254; ttl = 0 }) "192.0.2.1"

abbrev drop_ns : Rr
drop_ns = other (record (hdr origin 2) { class = 254; ttl = 0 }) "ns.example.org."

abbrev wipe_www : Rr
wipe_www =
    other (record { name = "www.example.org."; rrtype = 255; class = 255; ttl = 0; rdlength = 0 })
      ""

abbrev move_www : List Rr
move_www = www "192.0.2.2" ∷ drop_www ∷ drop_ns ∷ []

one_ns : count_rrset gen1 origin 2 ≡ 1
unfolding count_rrset header canonical
one_ns = refl

standing1 : Standing origin gen1
unfolding canonical soa_of
standing1 = record {
  placed = ((refl, refl), (tt, (tt, tt)));
  has_soa = λ e. ground (arith, e);
  has_ns = omega (arith, one_ns);
}

apply-Standing_example : Standing origin (apply origin gen1 move_www).0
apply-Standing_example =
    apply-Standing keyed_tell origin gen1 move_www (tt, (tt, (tt, tt))) standing1

-- the new address is there, the old one is gone, the NS has stayed
apply_move : (apply origin gen1 move_www) ≡ (apex 1 ∷ apex_ns ∷ www "192.0.2.2" ∷ [], true)
unfolding apply apply_rr apply_delete canonical header count_rrset index_of_rr apply_add has_cname
    add_rr rdata_key
apply_move = refl

moved : (apply origin gen1 move_www).1 ≡ true
moved = ap (λ o. o.1) apply_move

exclusive1 : Exclusive gen1
unfolding has_cname is_of header
exclusive1 name e = ground (arith, e)

apply-Exclusive_example : Exclusive (apply origin gen1 move_www).0
apply-Exclusive_example =
    apply-Exclusive origin keyed_tell gen1 move_www (tt, (tt, (tt, tt))) standing1 exclusive1

abbrev foreign : Header
foreign = record (hdr "sub.example.org." 6) { ttl = 60 }

foreign_away : canonical foreign.name ≢ canonical origin
unfolding canonical
foreign_away e = ground (arith, (eq_iff (canonical foreign.name) (canonical origin)).1 e)

foreign_soa_example :
    (prescan origin none true (soa foreign (apex_soa 9) ∷ []) ≡ success)
    × (apply origin gen1 (soa foreign (apex_soa 9) ∷ [])
        ≡ (soa foreign (apex_soa 9) ∷ apex_ns ∷ www "192.0.2.1" ∷ [], true))
    × (rrset_exists (soa foreign (apex_soa 9) ∷ apex_ns ∷ www "192.0.2.1" ∷ []) origin 6 ≡ false)
unfolding allowed in_zone canonical soa_of serial_greater rrset_exists rrset_of
foreign_soa_example =
    foreign_soa origin none [] (apex_ns ∷ www "192.0.2.1" ∷ []) foreign (hdr origin 6) (apex_soa 9)
      (apex_soa 1) refl refl foreign_away refl refl refl refl refl

www_away : canonical (header wipe_www).name ≢ origin
unfolding canonical header
www_away e = ground (arith, (eq_iff (canonical (header wipe_www).name) origin).1 e)

wipe_passes_policy_example :
    (prescan origin (some (λ t. t == 16)) true (wipe_www ∷ []) ≡ success)
    × (some_of
          (λ x. same_name x (canonical (header wipe_www).name))
          (apply origin gen1 (wipe_www ∷ [])).0
        ≡ false)
unfolding in_zone header canonical
wipe_passes_policy_example =
    wipe_passes_policy origin (some (λ t. t == 16)) wipe_www gen1 refl www_away refl refl refl refl

-- the same two addresses in either order
abbrev two : List Rr
two = www "192.0.2.1" ∷ www "192.0.2.2" ∷ []

abbrev two' : List Rr
two' = www "192.0.2.2" ∷ www "192.0.2.1" ∷ []

-- prerequisites: an address of www in use, no mail, and this NS set
abbrev prereqs1 : List Rr
prereqs1 =
    other (record { name = "www.example.org."; rrtype = 1; class = 255; ttl = 0; rdlength = 0 }) ""
    ∷ other
        (record { name = "mail.example.org."; rrtype = 255; class = 254; ttl = 0; rdlength = 0 }) ""
    ∷ other (record (hdr origin 2) { ttl = 0 }) "ns.example.org."
    ∷ []

prereqs1_pass : check_prereqs gen1 origin prereqs1 ≡ success
unfolding check_prereqs scan_prereqs check_prereq header in_zone canonical rrset_exists rrset_of
    name_in_use check_values append_at same_rrset key_of use_counts count_key rdata_key
prereqs1_pass = refl

check_prereqs-Met_example :
    All (Met gen1 origin) prereqs1
    × ((name : String) (rrtype : ℕ)
        → 1 ≤ length (keep (asks gen1 origin (name, rrtype)) prereqs1)
        → (k : String)
        → times k (rrset_of gen1 name rrtype)
          ≡ times k (keep (asks gen1 origin (name, rrtype)) prereqs1))
check_prereqs-Met_example = check_prereqs-Met gen1 origin prereqs1 prereqs1_pass

-- A plugin without a journal, a store that keeps the last list of records, and a view that is
-- always built.
abbrev pub plugin1 : UpdatePersist
plugin1 = record {
  zone = origin;
  mutable = none;
  journal = none;
  rrs = gen1;
  view = gen1;
  epoch = 0;
}

abbrev pub config1 : Config (List Rr)
config1 = record {
  persist_fn = some (λ rrs s. some rrs);
  backend = none;
  builds = λ zone rrs. true;
}

commit_locked-Ends_example :
    let out = apply origin gen1 move_www in
    let result = commit_locked config1 plugin1 move_www [] in
    ((out.1 ≡ false) × (result ≡ (returned success, plugin1, [])))
    ⊎ ((out.1 ≡ true) × Ends config1 plugin1 (bump_serial out.0) [] result)
commit_locked-Ends_example = commit_locked-Ends config1 plugin1 move_www []

abbrev signed : Writer
signed = record { tsig_status = some true; types = [] }

abbrev request1 : Request
request1 = record {
  question = record { name = origin; qtype = 6; qclass = 1 } ∷ [];
  answer = prereqs1;
  ns = move_www;
  has_tsig = true;
}

serve_update-Admitted_example :
    (Admitted plugin1 signed request1
      × (serve_update config1 plugin1 signed request1 []
          ≡ commit_locked config1 plugin1 move_www []))
    ⊎ Rejected config1 plugin1 [] (serve_update config1 plugin1 signed request1 [])
serve_update-Admitted_example = serve_update-Admitted config1 plugin1 signed request1 []

abbrev unsigned : Writer
unsigned = record { tsig_status = some true; types = "*dns.response" ∷ [] }

abbrev request2 : Request
request2 = record request1 { has_tsig = false }

-- A plugin whose journal was never registered: the store has the new generation, the zone the old
-- one.
abbrev plugin2 : UpdatePersist
plugin2 = record plugin1 { journal = some (record { zone = ""; history = 64; journal = none }) }

abbrev gen_moved : List Rr
gen_moved = bump_serial (apply origin gen1 move_www).0

committed : (commit_locked config1 plugin1 move_www []).0 ≡ returned success
unfolding commit_locked store_and_swap finish_commit swap persist_updated journal_commit soa_of
    bump_serial
committed = rw (apply_move, commit_locked) refl

-- One UPDATE puts an SOA of a name below the apex in the place of the zone's, and deletes that
-- name.
abbrev lose_soa : List Rr
lose_soa =
    soa foreign (apex_soa 9) ∷ other (record foreign { rrtype = 255; class = 255; ttl = 0 }) "" ∷ []

lost_soa :
    commit_locked config1 plugin1 lose_soa [] ≡ (panicked, plugin1, apex_ns ∷ www "192.0.2.1" ∷ [])
unfolding commit_locked store_and_swap persist_updated bump_serial soa_of apply apply_rr apply_add
    apply_wipe add_soa put_soa canonical header serial_greater delete_where same_name wiped
lost_soa = refl

-- An added SOA that is as far ahead as counts as greater: with its serial bumped, it no longer is.
far_soa :
    soa_of (commit_locked config1 plugin1 (apex 2147483648 ∷ []) []).1.rrs
    ≡ some (hdr origin 6, apex_soa 2147483649)
unfolding commit_locked store_and_swap finish_commit swap persist_updated journal_commit bump_serial
    soa_of apply apply_rr apply_add add_soa put_soa canonical header serial_greater
far_soa = refl

far_greater : serial_greater 2147483648 1 ≡ true
unfolding serial_greater
far_greater = refl

far_not_newer : serial_greater 2147483649 1 ≡ false
unfolding serial_greater
far_not_newer = refl

commit_locked-newer_example :
    (soa_of (commit_locked config1 plugin1 move_www []).1.rrs
      ≡ some (hdr origin 6, bumped (apex_soa 1)))
    × (serial_greater (bumped (apex_soa 1)).serial 1 ≡ true)
unfolding header soa_of
commit_locked-newer_example =
    commit_locked-newer keyed_tell config1 plugin1 move_www [] (hdr origin 6) (apex_soa 1)
      (
        (tt, inr (λ e. ground (arith, e))),
        ((tt, inr (λ e. ground (arith, e))), ((tt, inr (λ e. ground (arith, e))), tt)),
      )
      standing1 refl (omega arith) moved committed
