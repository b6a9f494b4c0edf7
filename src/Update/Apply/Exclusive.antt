-- ===== src/Update/Apply/Exclusive.antt =====
-- apply (dns-update-persistent/update.go) at names with a CNAME.
use coredns_ez.Prelude.{
  ◌≡◌, ◌≢◌, refl, ◌∙◌, sym, String, Bool, true, false, not, Option, none, some, List, [], ◌∷◌, All,
  if-cases, arith, eq_iff, ◌==◌, nat_tests, text_tests, ◌&&◌,
}
use coredns_ez.Dns.{
  Header, Soa, Rr, soa, other, header, soa_of, type_cname, type_soa, class_inet, class_any,
  class_none, Dns, canonical,
}
use coredns_ez.Dns.Serial.{serial_greater}
use coredns_ez.Update.Zone.{same_name, is_of, has_cname, has_non_cname, beside_cname}
use coredns_ez.Update.Apply.{
  put_soa, add_soa, add_rr, apply_add, apply_wipe, apply_delete, apply_rr, apply_from, apply,
}
use coredns_ez.Update.Apply.Edits.{KeysTell, Placed, Standing}
use coredns_ez.Update.Apply.Apex.{apply_rr-Standing}
use coredns_ez.Update.Apply.CnameEdits.{
  Exclusive, ExclusiveOut, add_rr-Exclusive, apply_wipe-Exclusive, apply_delete-Exclusive,
}

module _ ⦃dns : Dns⦄ (zone : String) where
  has_cname-put_soa :
      (h : Header) (s : Soa) (rrs : List Rr) (name : String)
      → Placed zone (soa h s)
      → All (Placed zone) rrs
      → has_cname (put_soa (soa h s) rrs) name ≡ has_cname rrs name
  unfolding put_soa has_cname is_of same_name header
  has_cname-put_soa h s [] name p a = refl
  has_cname-put_soa h s (soa g t ∷ rrs) name p (q, a) = ground (arith, p, q)
  has_cname-put_soa h s (other g d ∷ rrs) name p (q, a) =
      ground (arith, has_cname-put_soa h s rrs name p a)

  has_non_cname-put_soa :
      (h : Header) (s : Soa) (rrs : List Rr) (name : String)
      → Placed zone (soa h s)
      → soa_of rrs ≢ none
      → All (Placed zone) rrs
      → has_non_cname (put_soa (soa h s) rrs) name ≡ has_non_cname rrs name
  unfolding put_soa has_non_cname same_name header soa_of beside_cname
  has_non_cname-put_soa h s [] name p n a = refl
  has_non_cname-put_soa h s (soa g t ∷ rrs) name p n (q, a) =
      ground (arith, p, q, eq_iff (canonical g.name) name, eq_iff (canonical h.name) name)
  has_non_cname-put_soa h s (other g d ∷ rrs) name p n (q, a) =
      ground (arith, has_non_cname-put_soa h s rrs name p n a)

  put_soa-Exclusive :
      (h : Header) (s : Soa) (rrs : List Rr)
      → Placed zone (soa h s)
      → Standing zone rrs
      → Exclusive rrs
      → Exclusive (put_soa (soa h s) rrs)
  put_soa-Exclusive h s rrs p st x name e =
      has_non_cname-put_soa h s rrs name p st.has_soa st.placed
      ∙ x name (sym (has_cname-put_soa h s rrs name p st.placed) ∙ e)

  add_soa-Exclusive :
      (rr : Rr) (rrs : List Rr) (c : Bool)
      → Placed zone rr
      → Standing zone rrs
      → Exclusive rrs
      → ExclusiveOut (add_soa rr (rrs, c))
  unfolding add_soa
  add_soa-Exclusive (other h d) rrs c p st x = x
  add_soa-Exclusive (soa h s) rrs c p st x = split (soa_of rrs) refl
    where
      split :
          (o : Option (Header × Soa)) → soa_of rrs ≡ o → ExclusiveOut (add_soa (soa h s) (rrs, c))
      split none q = rw (q, add_soa) x
      split (some (g, t)) q =
          rw (q, add_soa)
            (if-cases ExclusiveOut (serial_greater s.serial t.serial) (put_soa (soa h s) rrs, true)
              (rrs, c) (λ _. put_soa-Exclusive h s rrs p st x) (λ _. x))

  apply_add-Exclusive :
      (rr : Rr) (rrs : List Rr) (c : Bool)
      → Placed zone rr
      → Standing zone rrs
      → Exclusive rrs
      → ExclusiveOut (apply_add rr (rrs, c))
  unfolding apply_add
  apply_add-Exclusive rr rrs c p st x =
      let h = header rr in
      let name = canonical h.name in
      if-cases ExclusiveOut (h.rrtype == type_soa) (add_soa rr (rrs, c)) _
        (λ _. add_soa-Exclusive rr rrs c p st x)
        (λ _.
          if-cases ExclusiveOut (h.rrtype == type_cname && has_non_cname rrs name) (rrs, c) _
            (λ _. x)
            (λ e.
              if-cases ExclusiveOut (not (h.rrtype == type_cname) && has_cname rrs name) (rrs, c)
                (add_rr rr (rrs, c)) (λ _. x) (λ g. add_rr-Exclusive rr rrs c e g x)))

  apply_rr-Exclusive :
      (rr : Rr) (rrs : List Rr) (c : Bool)
      → Placed zone rr
      → Standing zone rrs
      → Exclusive rrs
      → ExclusiveOut (apply_rr zone rr (rrs, c))
  unfolding apply_rr
  apply_rr-Exclusive rr rrs c p st x =
      let h = header rr in
      if-cases ExclusiveOut (h.class == class_inet) (apply_add rr (rrs, c)) _
        (λ _. apply_add-Exclusive rr rrs c p st x)
        (λ _.
          if-cases ExclusiveOut (h.class == class_any) (apply_wipe zone rr (rrs, c)) _
            (λ _. apply_wipe-Exclusive zone rr rrs c x)
            (λ _.
              if-cases ExclusiveOut (h.class == class_none) (apply_delete zone rr (rrs, c)) (rrs, c)
                (λ _. apply_delete-Exclusive zone rr rrs c x) (λ _. x)))

  module _ (tell : KeysTell) where
    apply_from-Exclusive :
        (updates rrs : List Rr) (c : Bool)
        → All (Placed zone) updates
        → Standing zone rrs
        → Exclusive rrs
        → ExclusiveOut (apply_from zone updates (rrs, c))
    unfolding apply_from
    apply_from-Exclusive [] rrs c a st x = x
    apply_from-Exclusive (rr ∷ updates) rrs c (p, a) st x =
        apply_from-Exclusive updates (apply_rr zone rr (rrs, c)).0 (apply_rr zone rr (rrs, c)).1 a
          (apply_rr-Standing tell zone rr rrs c p st) (apply_rr-Exclusive rr rrs c p st x)

    -- If no two records of different names or types have the same text, every SOA of the zone and
    -- of the updates is one of the apex, and the apex has an SOA and an NS record, then a zone in
    -- which nothing but RRSIG and NSEC stands beside a CNAME is one after every list of updates.
    pub apply-Exclusive :
        (rrs updates : List Rr)
        → All (Placed zone) updates
        → Standing zone rrs
        → Exclusive rrs
        → Exclusive (apply zone rrs updates).0
    unfolding apply
    apply-Exclusive rrs updates a st x = apply_from-Exclusive updates rrs false a st x
