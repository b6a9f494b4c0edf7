-- ===== src/Secondary/Primary/Order.antt =====
-- The serials at which secondary-persistent/transfer.go asks a master for a transfer.
use coredns_ez.Prelude.{
  ℕ, ◌≡◌, refl, ◌⊎◌, inl, inr, String, Bool, true, false, Option, none, some, List, [], ◌∷◌, arith,
}
use coredns_ez.Dns.{Header, Soa, Rr, soa_of}
use coredns_ez.Dns.Serial.{less}
use coredns_ez.Secondary.Primary.{Reply, failed, answered, ask_masters, should_transfer}

-- a master of the list that answers with this serial
abbrev pub Offers : (String → Reply) → List String → ℕ → Type 0
Offers ask [] serial = ⊥
Offers ask (m ∷ masters) serial =
    ((rrs : List Rr) × (h : Header) × (s : Soa) × (ask m ≡ answered rrs)
      × (soa_of rrs ≡ some (h, s))
      × (s.serial ≡ serial))
    ⊎ Offers ask masters serial

ask_masters-Offers :
    (ask : String → Reply) (failure : Bool) (masters : List String) (serial : ℕ)
    → (ask_masters ask failure masters).0 ≡ some serial
    → Offers ask masters serial
unfolding ask_masters
ask_masters-Offers ask failure [] serial e = ground (arith, e)
ask_masters-Offers ask failure (m ∷ masters) serial e =
    reply (ask m) refl (λ b. ask_masters-Offers ask b masters serial)
  where
    answer :
        (rrs : List Rr)
        → ask m ≡ answered rrs
        → (o : Option (Header × Soa)) → soa_of rrs ≡ o
        → ((b : Bool) → (ask_masters ask b masters).0 ≡ some serial → Offers ask masters serial)
        → Offers ask (m ∷ masters) serial
    answer rrs q none s rest = inr (rest false (ground (arith, e, q, s)))
    answer rrs q (some (h, t)) s rest = inl (rrs, h, t, q, s, ground (arith, e, q, s))

    reply :
        (r : Reply)
        → ask m ≡ r
        → ((b : Bool) → (ask_masters ask b masters).0 ≡ some serial → Offers ask masters serial)
        → Offers ask (m ∷ masters) serial
    reply failed q rest = inr (rest true (ground (arith, e, q)))
    reply (answered rrs) q rest = answer rrs q (soa_of rrs) refl rest

-- If a secondary that holds a zone decides to transfer it, then some master of its list answered
-- with an SOA whose serial is ahead of the one it holds, in the order that `less` gives.
pub should_transfer-Offers :
    (ask : String → Reply) (masters : List String) (old : ℕ)
    → (should_transfer ask masters (some old)).0 ≡ true
    → (new : ℕ) × Offers ask masters new × (less old new ≡ true)
unfolding should_transfer
should_transfer-Offers ask masters old e = split (ask_masters ask false masters).0 refl
  where
    split :
        (o : Option ℕ)
        → (ask_masters ask false masters).0 ≡ o
        → (new : ℕ) × Offers ask masters new × (less old new ≡ true)
    split none q = ground (arith, e, q)
    split (some new) q = (new, ask_masters-Offers ask false masters new q, ground (arith, e, q))
