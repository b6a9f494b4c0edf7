-- ===== src/Tests/Keyed.antt =====
-- A library whose record texts tell name and type, for the theorems that ask for that.
use Prim.Native.Char.{code}
use Prim.Native.String.{char_at}
use coredns_ez.Prelude.{
  ℕ, zero, suc, ◌+◌, ◌*◌, ◌==◌, nat_tests, ◌%◌, ◌≡◌, refl, ap, String, Bool, false, none, arith,
}
use coredns_ez.Dns.{Rr, soa, other, header, with_header, Dns, canonical}
use coredns_ez.Update.Zone.{rdata_key}
use coredns_ez.Update.Apply.Edits.{KeysTell}
use coredns_ez.Tests.Fixtures.{same, below}

-- a number in unary, and a text behind it
abbrev pub tally : ℕ → String → String
tally zero s = String.◌∷◌ (char_at "." 0) s
tally (suc n) s = String.◌∷◌ (char_at "I" 0) (tally n s)

abbrev behind : String → String
behind String.[] = String.[]
behind (String.◌∷◌ c s) = s

abbrev starts_full : String → Bool
starts_full String.[] = false
starts_full (String.◌∷◌ c s) = code c == b'I'

tally-injective : (n m : ℕ) (s t : String) → tally n s ≡ tally m t → (n ≡ m) × (s ≡ t)
tally-injective zero zero s t h = (refl, ap behind h)
tally-injective zero (suc m) s t h = ground (arith, ap starts_full h)
tally-injective (suc n) zero s t h = ground (arith, ap starts_full h)
tally-injective (suc n) (suc m) s t h =
    let (p, q) = tally-injective n m s t (ap behind h) in (ap suc p, q)

-- a number for the rdata
abbrev weight : String → ℕ
weight String.[] = 0
weight (String.◌∷◌ c s) = (code c + 3 * weight s) % 32

abbrev rdata : Rr → ℕ
rdata (soa h s) = s.serial
rdata (other h d) = weight d

abbrev pub text : Rr → String
text rr = tally (header rr).rrtype (tally (rdata rr) (header rr).name)

instance abbrev pub keyed_dns : Dns
keyed_dns = record {
  canonical_name = λ n. n;
  to_string = text;
  new_rr = λ t. none;
  is_duplicate = same;
  is_sub_domain = below;
}

pub keyed_tell : KeysTell
unfolding rdata_key header with_header
keyed_tell a b e = split a b e
  where
    parts :
        (n m i j : ℕ) (s t : String) → tally n (tally i s) ≡ tally m (tally j t) → (s ≡ t) × (n ≡ m)
    parts n m i j s t h =
        let (p, q) = tally-injective n m (tally i s) (tally j t) h in
        ((tally-injective i j s t q).1, p)

    split :
        (x y : Rr)
        → rdata_key x ≡ rdata_key y
        → (canonical (header x).name ≡ canonical (header y).name)
          × ((header x).rrtype ≡ (header y).rrtype)
    split (soa h s) (soa g t) e' = parts h.rrtype g.rrtype _ _ _ _ e'
    split (soa h s) (other g d) e' = parts h.rrtype g.rrtype _ _ _ _ e'
    split (other h d) (soa g t) e' = parts h.rrtype g.rrtype _ _ _ _ e'
    split (other h d) (other g d') e' = parts h.rrtype g.rrtype _ _ _ _ e'
