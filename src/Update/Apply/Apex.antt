-- ===== src/Update/Apply/Apex.antt =====
-- apply (dns-update-persistent/update.go) and the records of the apex.
use coredns_ez.Prelude.{
  ◌≡◌, ◌≢◌, refl, ◌∙◌, ◌⊎◌, inl, inr, String, Bool, true, false, Option, none, some, List, [], ◌∷◌,
  All, arith, Bool-cases, ◌==◌, nat_tests, text_tests, ◌&&◌,
}
use coredns_ez.Dns.{Header, Soa, Rr, soa, other, header, soa_of, type_ns, type_soa, class_inet, Dns}
use coredns_ez.Dns.Serial.{serial_greater}
use coredns_ez.Update.Zone.{same_name, is_of, count_rrset}
use coredns_ez.Update.Apply.{put_soa, add_soa, apply_add, apply_rr, apply_from, apply}
use coredns_ez.Update.Apply.Edits.{KeysTell, Placed, Standing, Keeps-Standing}
use coredns_ez.Update.Apply.Steps.{apply_rr-Keeps}

module _ ⦃dns : Dns⦄ (tell : KeysTell) (zone : String) where
  put_soa-Placed :
      (h : Header) (s : Soa) (rrs : List Rr)
      → Placed zone (soa h s)
      → All (Placed zone) rrs
      → All (Placed zone) (put_soa (soa h s) rrs)
  unfolding put_soa
  put_soa-Placed h s [] p a = a
  put_soa-Placed h s (soa g t ∷ rrs) p (q, a) = (p, a)
  put_soa-Placed h s (other g d ∷ rrs) p (q, a) = (tt, put_soa-Placed h s rrs p a)

  soa_of-put_soa :
      (h : Header) (s : Soa) (rrs : List Rr)
      → soa_of rrs ≢ none
      → soa_of (put_soa (soa h s) rrs) ≡ some (h, s)
  unfolding put_soa soa_of
  soa_of-put_soa h s [] n = elim (n refl) [ ]
  soa_of-put_soa h s (soa g t ∷ rrs) n = refl
  soa_of-put_soa h s (other g d ∷ rrs) n = soa_of-put_soa h s rrs n

  count-put_soa :
      (h : Header) (s : Soa) (rrs : List Rr)
      → Placed zone (soa h s)
      → All (Placed zone) rrs
      → count_rrset (put_soa (soa h s) rrs) zone type_ns ≡ count_rrset rrs zone type_ns
  unfolding put_soa count_rrset is_of same_name header
  count-put_soa h s [] p a = refl
  count-put_soa h s (soa g t ∷ rrs) p (q, a) = ground (arith, p, q)
  count-put_soa h s (other g d ∷ rrs) p (q, a) = ground (arith, count-put_soa h s rrs p a)

  put_soa-Standing :
      (h : Header) (s : Soa) (rrs : List Rr)
      → Placed zone (soa h s)
      → Standing zone rrs
      → Standing zone (put_soa (soa h s) rrs)
  put_soa-Standing h s rrs p st = record {
    placed = put_soa-Placed h s rrs p st.placed;
    has_soa = λ n. ground (arith, n, soa_of-put_soa h s rrs st.has_soa);
    has_ns = omega (arith, count-put_soa h s rrs p st.placed, st.has_ns);
  }

  add_soa-Standing :
      (rr : Rr) (rrs : List Rr) (c : Bool)
      → Placed zone rr
      → Standing zone rrs
      → Standing zone (add_soa rr (rrs, c)).0
  unfolding add_soa
  add_soa-Standing (other h d) rrs c p st = st
  add_soa-Standing (soa h s) rrs c p st = split (soa_of rrs) refl
    where
      split :
          (o : Option (Header × Soa))
          → soa_of rrs ≡ o
          → Standing zone (add_soa (soa h s) (rrs, c)).0
      split none q = rw (q, add_soa) st
      split (some (g, t)) q =
          rw (q, add_soa)
            (elim (Bool-cases (serial_greater s.serial t.serial)) [
              | inl e ↦ rw e (put_soa-Standing h s rrs p st)
              | inr e ↦ rw e st
            ])

  add_soa_rr :
      (rr : Rr) (rrs : List Rr) (c : Bool)
      → Placed zone rr
      → (header rr).class ≡ class_inet
      → (header rr).rrtype ≡ type_soa
      → Standing zone rrs
      → Standing zone (apply_rr zone rr (rrs, c)).0
  unfolding apply_rr apply_add
  add_soa_rr rr rrs c p e g st = rw (e, g) (add_soa-Standing rr rrs c p st)

  pub apply_rr-Standing :
      (rr : Rr) (rrs : List Rr) (c : Bool)
      → Placed zone rr
      → Standing zone rrs
      → Standing zone (apply_rr zone rr (rrs, c)).0
  apply_rr-Standing rr rrs c p st =
      split (Bool-cases ((header rr).class == class_inet && (header rr).rrtype == type_soa))
    where
      split :
          (((header rr).class == class_inet && (header rr).rrtype == type_soa) ≡ true)
            ⊎ (((header rr).class == class_inet && (header rr).rrtype == type_soa) ≡ false)
          → Standing zone (apply_rr zone rr (rrs, c)).0
      split (inl e) = add_soa_rr rr rrs c p (ground (arith, e)) (ground (arith, e)) st
      split (inr e) =
          Keeps-Standing tell zone rrs (apply_rr zone rr (rrs, c)).0 st
            (apply_rr-Keeps tell zone rr rrs c p (ground (arith, e)) st)

  apply_from-Standing :
      (updates rrs : List Rr) (c : Bool)
      → All (Placed zone) updates
      → Standing zone rrs
      → Standing zone (apply_from zone updates (rrs, c)).0
  unfolding apply_from
  apply_from-Standing [] rrs c a st = st
  apply_from-Standing (rr ∷ updates) rrs c (p, a) st =
      apply_from-Standing updates (apply_rr zone rr (rrs, c)).0 (apply_rr zone rr (rrs, c)).1 a
        (apply_rr-Standing rr rrs c p st)

  -- If no two records of different names or types have the same text, and every SOA of the zone and
  -- of the updates is one of the apex, then whatever the updates are, a zone with an SOA and an NS
  -- record at the apex has them afterwards, and its SOAs are still at the apex.
  pub apply-Standing :
      (rrs updates : List Rr)
      → All (Placed zone) updates
      → Standing zone rrs
      → Standing zone (apply zone rrs updates).0
  unfolding apply
  apply-Standing rrs updates a st = apply_from-Standing updates rrs false a st

  -- an update that adds no SOA
  abbrev pub AddsNoSoa : Rr → Type 0
  AddsNoSoa rr =
      Placed zone rr × (((header rr).class ≢ class_inet) ⊎ ((header rr).rrtype ≢ type_soa))

  apply_from-soa_of :
      (updates rrs : List Rr) (c : Bool)
      → All AddsNoSoa updates
      → Standing zone rrs
      → soa_of (apply_from zone updates (rrs, c)).0 ≡ soa_of rrs
  unfolding apply_from
  apply_from-soa_of [] rrs c a st = refl
  apply_from-soa_of (rr ∷ updates) rrs c ((p, n), a) st =
      let k = apply_rr-Keeps tell zone rr rrs c p n st in
      apply_from-soa_of updates (apply_rr zone rr (rrs, c)).0 (apply_rr zone rr (rrs, c)).1 a
        (Keeps-Standing tell zone rrs (apply_rr zone rr (rrs, c)).0 st k)
      ∙ k.same_soa

  -- Under the same conditions, updates that add no SOA leave the SOA exactly as it is, deletions of
  -- it included.
  pub apply-soa_of :
      (rrs updates : List Rr)
      → All AddsNoSoa updates
      → Standing zone rrs
      → soa_of (apply zone rrs updates).0 ≡ soa_of rrs
  unfolding apply
  apply-soa_of rrs updates a st = apply_from-soa_of updates rrs false a st
