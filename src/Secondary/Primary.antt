-- ===== src/Secondary/Primary.antt =====
-- secondary-persistent/transfer.go: whether a primary has a newer zone, and the order of the two
-- kinds of transfer.
pub mod Order
use coredns_ez.Prelude.{
  ℕ, suc, String, Bool, true, false, Option, none, some, List, [], ◌∷◌, if◌then◌else◌,
}
use coredns_ez.Dns.{Header, Soa, Rr, soa_of}
use coredns_ez.Dns.Serial.{less}

-- What comes of one SOA query: no answer or one with an error code, or the answer section.
pub data Reply : Type 0 where
  failed : Reply
  answered : List Rr → Reply

-- The loop over the masters: the first serial that one of them answers with, and whether the last
-- one that was asked failed.
unfoldable pub ask_masters : (String → Reply) → Bool → List String → Option ℕ × Bool
ask_masters ask failure [] = (none, failure)
ask_masters ask failure (m ∷ masters) = elim (ask m) [
  | failed ↦ ask_masters ask true masters
  | answered rrs ↦ elim (soa_of rrs) [
    | some (h, s) ↦ (some s.serial, false)
    | none ↦ ask_masters ask false masters
  ]
]

-- shouldTransfer: the verdict, and whether it comes with an error. `cur` is the serial of the zone.
unfoldable pub should_transfer : (String → Reply) → List String → Option ℕ → Bool × Bool
should_transfer ask masters cur =
    let (serial, failure) = ask_masters ask false masters in
    elim serial [
      | none ↦ (false, failure)
      | some new ↦ elim cur [ none ↦ (true, failure) | some old ↦ (less old new, failure) ]
    ]

-- transferIn, over the two transfers, which give the new state of the zone or fail; the second
-- result is whether the zone is enqueued to be stored, and the third the cache's epoch.
unfoldable pub transfer_in :
    {Z : Type 0} → (Z → Bool) → (Z → Option Z) → (Z → Option Z) → Z → ℕ → Option (Z × Bool × ℕ)
transfer_in has_soa ixfr axfr z epoch =
    elim (if has_soa z then (elim (ixfr z) [ some z' ↦ some z' | none ↦ axfr z ]) else axfr z) [
      | none ↦ none
      | some z' ↦ some (z', has_soa z', suc epoch)
    ]
