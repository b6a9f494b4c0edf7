-- ===== src/Secondary/Xfr/Lost.antt =====
-- parseIXFR (secondary-persistent/ixfr.go) and a stream of several increments.
use coredns_ez.Prelude.{
  ◌≡◌, refl, ◌∙◌, true, false, List, [], ◌∷◌, ◌++◌, Option, some, none, ok, arith, String,
}
use coredns_ez.Dns.{Header, Soa, Rr, soa, Dns}
use coredns_ez.Dns.Serial.{less}
use coredns_ez.JournalText.{Increment}
use coredns_ez.Journal.{have_key, delta_stream}
use coredns_ez.Journal.Diff.{replay}
use coredns_ez.Secondary.Xfr.{use_up, remove_rrs, replace_incs, apply_increments, parse_ixfr}
use coredns_ez.Secondary.Xfr.Stream.{LeadsTo, collapse, parse-delta_stream}
use coredns_ez.Secondary.Xfr.Apply.{have_key-append, have_key-replace_soa}

module _ ⦃dns : Dns⦄ where
  remove_rrs-absent :
      (k : String) (xs dels : List Rr)
      → have_key k xs ≡ false
      → have_key k (remove_rrs xs dels) ≡ false
  unfolding remove_rrs have_key
  remove_rrs-absent k [] dels h = refl
  remove_rrs-absent k (x ∷ xs) dels h =
      split (λ ds q. remove_rrs-absent k xs ds q) (use_up x dels) refl
    where
      split :
          ((ds : List Rr) → have_key k xs ≡ false → have_key k (remove_rrs xs ds) ≡ false)
          → (r : Option (List Rr)) → use_up x dels ≡ r
          → have_key k (remove_rrs (x ∷ xs) dels) ≡ false
      split ih none q = ground (arith, ih dels)
      split ih (some ds) q = ground (arith, ih ds)

  -- For every stream of two or more increments that leads to the served serial: a record that the
  -- secondary did not have, that the increments add when they are replayed in order, and that the
  -- last increment does not add, is missing on the secondary after a transfer that reports no
  -- error.
  pub lost_addition :
      (current : List Rr) (h : Header) (s : Soa) (i j : Increment) (is : List Increment)
      (k : String)
      → LeadsTo s.serial i (j ∷ is)
      → less (collapse j is).old_serial s.serial ≡ true
      → have_key k current ≡ false
      → replay (i ∷ j ∷ is) (λ x. have_key x current) k ≡ true
      → have_key k (collapse j is).added ≡ false
      → (incs : List Increment) × (parse_ixfr
            (soa h s ∷ (delta_stream (h, s) (i ∷ j ∷ is) ++ soa h s ∷ []))
          ≡ ok incs)
        × (have_key k (apply_increments current incs (h, s)) ≡ false)
  unfolding collapse apply_increments replace_incs
  lost_addition current h s i j is k leads newer absent wanted unsaid =
      let all = collapse i (j ∷ is) in
      (
        record all { new_serial = s.serial } ∷ [],
        parse-delta_stream h s i (j ∷ is) leads newer,
        have_key-replace_soa k (h, s) (remove_rrs current all.deleted ++ all.added)
            ∙ have_key-append k (remove_rrs current all.deleted) all.added
            ∙ rw (remove_rrs-absent k current all.deleted absent, unsaid),
      )
