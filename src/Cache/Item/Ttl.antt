-- ===== src/Cache/Item/Ttl.antt =====
-- The TTL under which a cached answer is served.
use coredns_ez.Prelude.{
  ℕ, ◌+◌, ◌-◌, ◌*◌, ◌/◌, ◌^◌, ◌≤◌, ◌<◌, ◌≡◌, ◌≢◌, refl, Bool, true, false, not, List, [], ◌∷◌, map,
  keep, All, arith, nat_tests, neg_part, to_u32, All-kept,
}
use coredns_ez.Dns.{type_opt}
use coredns_ez.Cache.Message.{AnswerRr, cname, other, header_of, Msg}
use coredns_ez.Cache.Item.{
  second, Content, is_opt, with_ttl, filter_rr_slice, ttl_at, is_positive, to_msg_with_ttl,
}

-- every record of a message has this TTL, and none is an OPT record
abbrev pub Aged : ℕ → AnswerRr → Type 0
Aged ttl r = ((header_of r).ttl ≡ ttl) × ((header_of r).rrtype ≢ type_opt)

abbrev pub AllAged : ℕ → Msg → Type 0
AllAged ttl m = All (Aged ttl) m.answer × All (Aged ttl) m.ns × All (Aged ttl) m.extra

with_ttl-Aged : (ttl : ℕ) (r : AnswerRr) → not (is_opt r) ≡ true → Aged ttl (with_ttl ttl r)
unfolding with_ttl header_of is_opt
with_ttl-Aged ttl (cname h t) e = (refl, ground (arith, e))
with_ttl-Aged ttl (other h d) e = (refl, ground (arith, e))

rrs-Aged :
    (ttl : ℕ) (rs : List AnswerRr)
    → All (λ r. not (is_opt r) ≡ true) rs
    → All (Aged ttl) (map (with_ttl ttl) rs)
rrs-Aged ttl [] p = tt
rrs-Aged ttl (r ∷ rs) (p, ps) = (with_ttl-Aged ttl r p, rrs-Aged ttl rs ps)

pub filter_rr_slice-Aged :
    (rrs : List AnswerRr) (ttl : ℕ) → All (Aged ttl) (filter_rr_slice rrs ttl)
unfolding filter_rr_slice
filter_rr_slice-Aged rrs ttl =
    rrs-Aged ttl (keep (λ r. not (is_opt r)) rrs) (All-kept (λ r. not (is_opt r)) rrs)

pub to_msg_with_ttl-Aged :
    (reply : Msg) (i : Content) (ttl : ℕ) (do_bit ad : Bool)
    → AllAged ttl (to_msg_with_ttl reply i ttl do_bit ad)
unfolding to_msg_with_ttl
to_msg_with_ttl-Aged reply i ttl do_bit ad = (
  filter_rr_slice-Aged i.answer ttl,
  filter_rr_slice-Aged i.ns ttl,
  filter_rr_slice-Aged i.extra ttl,
)

-- the TTL that a fresh item has left
pub ttl_at-fresh :
    (i : Content) (now : ℕ)
    → i.stored ≤ now
    → i.orig_ttl < 2 ^ 32
    → is_positive (ttl_at i now) ≡ true
    → (to_u32 (ttl_at i now) + (now - i.stored) / second ≡ i.orig_ttl) × (1 ≤ to_u32 (ttl_at i now))
unfolding ttl_at
ttl_at-fresh i now h small e = ground arith

behind :
    (i : Content) (now : ℕ)
    → i.stored ≤ now
    → is_positive (ttl_at i now) ≡ false
    → (neg_part (ttl_at i now) + i.orig_ttl ≡ (now - i.stored) / second)
unfolding ttl_at
behind i now h e = ground (arith, e)

go_back :
    (stored now orig n : ℕ)
    → stored ≤ now
    → n + orig ≡ (now - stored) / second
    → ((now - n * second - stored) / second ≡ orig) × (stored ≤ now - n * second)
go_back stored now orig n h e = omega arith

at_end :
    (i : Content) (m : ℕ)
    → i.stored ≤ m
    → (m - i.stored) / second ≡ i.orig_ttl
    → to_u32 (ttl_at i m) ≡ 0
unfolding ttl_at
at_end i m h e = ground (arith, e)

-- the time to which ServeDNS goes back for a stale item
pub ttl_at-stale :
    (i : Content) (now : ℕ)
    → i.stored ≤ now
    → is_positive (ttl_at i now) ≡ false
    → to_u32 (ttl_at i (now - neg_part (ttl_at i now) * second)) ≡ 0
ttl_at-stale i now h e =
    let (seconds, not_before) =
      go_back i.stored now i.orig_ttl (neg_part (ttl_at i now)) h (behind i now h e) in
    at_end i (now - neg_part (ttl_at i now) * second) not_before seconds

-- aging twice is aging once
pub filter_rr_slice-twice :
    (rrs : List AnswerRr) (ttl : ℕ)
    → filter_rr_slice (filter_rr_slice rrs ttl) ttl ≡ filter_rr_slice rrs ttl
unfolding filter_rr_slice with_ttl is_opt header_of
filter_rr_slice-twice [] ttl = refl
filter_rr_slice-twice (cname h t ∷ rrs) ttl = ground (arith, filter_rr_slice-twice rrs ttl)
filter_rr_slice-twice (other h d ∷ rrs) ttl = ground (arith, filter_rr_slice-twice rrs ttl)
