-- ===== src/Tests/Transfers.antt =====
-- Transfers of the three generations to a secondary.
use coredns_ez.Prelude.{
  ◌≡◌, refl, false, some, inl, inr, List, [], ◌∷◌, ◌++◌, ok, ◌==◌, text_tests, if◌then◌else◌,
}
use coredns_ez.Dns.{Rr, soa, other, header, is_soa, soa_of, to_lower}
use coredns_ez.Dns.Serial.{less}
use coredns_ez.JournalText.{Increment}
use coredns_ez.Journal.{ixfr_key, have_key, delta_stream, serial_of}
use coredns_ez.Secondary.Xfr.{XfrKind, classify_xfr, parse_ixfr, apply_increments}
use coredns_ez.Secondary.Xfr.Stream.{LeadsTo, collapse}
use coredns_ez.Secondary.Xfr.Apply.{follows_one}
use coredns_ez.Secondary.Xfr.Lost.{lost_addition}
use coredns_ez.Tests.Fixtures.{simple_dns, origin, apex, apex_soa, hdr, gen1, gen2}
use coredns_ez.Tests.Journals.{inc12, inc23, inc12_made}

abbrev stream13 : List Rr
stream13 = apex 3 ∷ (delta_stream (hdr origin 6, apex_soa 3) (inc12 ∷ inc23 ∷ []) ++ apex 3 ∷ [])

stream13_kind : classify_xfr stream13 ≡ ok XfrKind.ixfr
unfolding classify_xfr delta_stream
stream13_kind = refl

leads13 : LeadsTo 3 inc12 (inc23 ∷ [])
unfolding is_soa
leads13 = (refl, refl, (refl, tt), (refl, tt), (refl, refl, tt, (refl, tt)))

lost_addition_example :
    (incs : List Increment) × (parse_ixfr stream13 ≡ ok incs)
    × (have_key "www.example.org. 192.0.2.2" (apply_increments gen1 incs (hdr origin 6, apex_soa 3))
        ≡ false)
unfolding collapse less have_key
lost_addition_example =
    lost_addition gen1 (hdr origin 6) (apex_soa 3) inc12 inc23 [] "www.example.org. 192.0.2.2"
      leads13 refl refl refl refl

-- the names of these records are in canonical form
abbrev IsLower : Rr → Type 0
IsLower rr = to_lower (header rr).name ≡ (header rr).name

lower_alike :
    (x d : Rr)
    → IsLower x
    → IsLower d
    → is_soa d ≡ false
    → simple_dns.is_duplicate x d ≡ (if is_soa x then false else ixfr_key x == ixfr_key d)
unfolding is_soa ixfr_key
lower_alike (soa h s) d p q n = refl
lower_alike (other h a) (soa g s) p q n = cc
lower_alike (other h a) (other g b) p q n = rw (p, q)

follows_one_example :
    (parse_ixfr (apex 2 ∷ (delta_stream (hdr origin 6, apex_soa 2) (inc12 ∷ []) ++ apex 2 ∷ []))
      ≡ ok (inc12 ∷ []))
    × (have_key "www.example.org. 192.0.2.2"
          (apply_increments gen1 (inc12 ∷ []) (hdr origin 6, apex_soa 2))
        ≡ have_key "www.example.org. 192.0.2.2" gen2)
    × (soa_of (apply_increments gen1 (inc12 ∷ []) (hdr origin 6, apex_soa 2))
        ≡ some (hdr origin 6, apex_soa 2))
unfolding to_lower header have_key soa_of serial_of less
follows_one_example =
    follows_one IsLower lower_alike gen1 gen1 gen2 (hdr origin 6) (apex_soa 2) inc12
      "www.example.org. 192.0.2.2" (refl, (refl, (refl, tt))) (refl, (refl, (refl, tt)))
      (inl refl, (inr refl, (inr refl, tt))) (λ x. refl) refl refl inc12_made
