-- ===== src/Update/Apply/Foreign.antt =====
-- apply (dns-update-persistent/update.go): an added SOA of another name than the apex.
use coredns_ez.Prelude.{
  ℕ, ◌≡◌, ◌≢◌, refl, ap, ◌∙◌, String, Bool, true, false, not, Option, none, some, List, [], ◌∷◌,
  ◌++◌, keep, length, ◌==◌, eq_iff, arith, nat_tests, text_tests,
}
use coredns_ez.Dns.{
  Header, Soa, Rr, soa, header, soa_of, type_soa, class_inet, success, Dns, canonical,
}
use coredns_ez.Dns.Serial.{serial_greater}
use coredns_ez.Update.Zone.{in_zone, is_of, is_meta_type, rrset_of, rrset_exists}
use coredns_ez.Update.Prescan.{allowed, prescan, prescan_rr}
use coredns_ez.Update.Apply.{put_soa, add_soa, apply_add, apply_rr, apply_from, apply}

module _ ⦃dns : Dns⦄ (zone : String) where
  put_soa-at :
      (new : Rr) (pre post : List Rr) (g : Header) (t : Soa)
      → soa_of pre ≡ none
      → put_soa new (pre ++ soa g t ∷ post) ≡ pre ++ new ∷ post
  unfolding put_soa soa_of
  put_soa-at new [] post g t e = refl
  put_soa-at new (soa g' t' ∷ pre) post g t e = ground (arith, e)
  put_soa-at new (Rr.other g' d ∷ pre) post g t e =
      ap (Rr.other g' d ∷◌) (put_soa-at new pre post g t e)

  soa_of-at :
      (pre post : List Rr) (g : Header) (t : Soa)
      → soa_of pre ≡ none
      → soa_of (pre ++ soa g t ∷ post) ≡ some (g, t)
  unfolding soa_of
  soa_of-at [] post g t e = refl
  soa_of-at (soa g' t' ∷ pre) post g t e = ground (arith, e)
  soa_of-at (Rr.other g' d ∷ pre) post g t e = soa_of-at pre post g t e

  keep-without :
      (q : Rr → Bool) (pre post : List Rr) (x : Rr)
      → q x ≡ false
      → keep q (pre ++ x ∷ post) ≡ keep q (pre ++ post)
  keep-without q [] post x e = ground (arith, e)
  keep-without q (y ∷ pre) post x e = ground (arith, keep-without q pre post x e)

  not_at_apex :
      (h : Header) (s : Soa)
      → canonical h.name ≢ canonical zone
      → is_of (canonical zone) type_soa (soa h s) ≡ false
  unfolding is_of header
  not_at_apex h s away = ground (arith, away, eq_iff (canonical h.name) (canonical zone))

  no_apex_soa :
      (pre post : List Rr) (h : Header) (s : Soa)
      → canonical h.name ≢ canonical zone
      → rrset_exists (pre ++ post) zone type_soa ≡ false
      → rrset_exists (pre ++ soa h s ∷ post) zone type_soa ≡ false
  unfolding rrset_exists rrset_of
  no_apex_soa pre post h s away only =
      ap (λ l. not (length l == 0))
        (keep-without (is_of (canonical zone) type_soa) pre post (soa h s) (not_at_apex h s away))
      ∙ only

  prescan_one :
      (policy : Option (ℕ → Bool)) (h : Header) (s : Soa)
      → allowed policy true h.rrtype ≡ true
      → in_zone zone h.name ≡ true
      → h.rrtype ≡ type_soa
      → h.class ≡ class_inet
      → prescan_rr zone policy true (soa h s) ≡ success
  unfolding prescan_rr header is_meta_type
  prescan_one policy h s ok inside ty cl = ground (arith, ok, inside, ty, cl)

  add_soa-newer :
      (pre post : List Rr) (h g : Header) (s t : Soa)
      → soa_of pre ≡ none
      → serial_greater s.serial t.serial ≡ true
      → add_soa (soa h s) (pre ++ soa g t ∷ post, false) ≡ (pre ++ soa h s ∷ post, true)
  unfolding add_soa
  add_soa-newer pre post h g s t first newer =
      rw (soa_of-at pre post g t first, newer, add_soa)
        (ap (λ l. (l, true)) (put_soa-at (soa h s) pre post g t first))

  apply_rr-add_soa :
      (rrs : List Rr) (h : Header) (s : Soa)
      → h.rrtype ≡ type_soa
      → h.class ≡ class_inet
      → apply_rr zone (soa h s) (rrs, false) ≡ add_soa (soa h s) (rrs, false)
  unfolding apply_rr apply_add header
  apply_rr-add_soa rrs h s ty cl = ground (arith, ty, cl)

  -- An UPDATE that adds one SOA, of another name of the zone and with a greater serial than the
  -- zone's first SOA, passes the prescan, where the policy allows SOA, and its record takes that
  -- SOA's place, all other records staying as they are; where the zone has no other SOA at its
  -- apex, the apex then has none.
  pub foreign_soa :
      (policy : Option (ℕ → Bool)) (pre post : List Rr) (h g : Header) (s t : Soa)
      → allowed policy true h.rrtype ≡ true
      → in_zone zone h.name ≡ true
      → canonical h.name ≢ canonical zone
      → h.rrtype ≡ type_soa
      → h.class ≡ class_inet
      → soa_of pre ≡ none
      → rrset_exists (pre ++ post) zone type_soa ≡ false
      → serial_greater s.serial t.serial ≡ true
      → (prescan zone policy true (soa h s ∷ []) ≡ success)
        × (apply zone (pre ++ soa g t ∷ post) (soa h s ∷ []) ≡ (pre ++ soa h s ∷ post, true))
        × (rrset_exists (pre ++ soa h s ∷ post) zone type_soa ≡ false)
  unfolding prescan apply apply_from
  foreign_soa policy pre post h g s t ok inside away ty cl first only newer = (
    rw (prescan_one policy h s ok inside ty cl, prescan) refl,
    apply_rr-add_soa (pre ++ soa g t ∷ post) h s ty cl ∙ add_soa-newer pre post h g s t first newer,
    no_apex_soa pre post h s away only,
  )
