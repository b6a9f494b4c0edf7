-- ===== src/Update/Apply/Steps.antt =====
-- One record's turn in apply (dns-update-persistent/update.go), at the apex of the zone.
use coredns_ez.Prelude.{
  ℕ, ◌≡◌, ◌≢◌, ◌≤◌, refl, ap, ◌⊎◌, inl, inr, String, Bool, true, false, not, Option, none, some,
  List, keep, get_elem?, remove_at, modify, arith, eq_iff, Bool-cases, ◌==◌, leb, nat_tests,
  text_tests, ◌&&◌, ◌||◌, if◌then◌else◌,
}
use coredns_ez.Dns.{
  Rr, soa, other, header, is_soa, type_ns, type_soa, type_any, type_cname, class_inet, class_any,
  class_none, Dns, canonical,
}
use coredns_ez.Update.Zone.{
  same_name, is_of, index_of_rr, rdata_key, delete_where, count_rrset, has_cname, has_non_cname,
}
use coredns_ez.Update.Apply.{
  Outcome, add_soa, set_ttl, ttl_at, add_rr, apply_add, wiped, apply_wipe, apply_delete, apply_rr,
}
use coredns_ez.Update.Apply.Edits.{
  KeysTell, Placed, Standing, Keeps, index_of_rr-get, All-get, Keeps-refl, no_soa, append-Keeps,
  modify-Keeps, keep-Keeps, remove_at-Keeps,
}

module _ ⦃dns : Dns⦄ (tell : KeysTell) (zone : String) where
  found_no_soa :
      (rr x : Rr) (i : ℕ) (rrs : List Rr)
      → get_elem? rrs i ≡ some x
      → rdata_key x ≡ rdata_key rr
      → ((header rr).rrtype ≢ type_soa) ⊎ (canonical (header rr).name ≢ zone)
      → Standing zone rrs
      → is_soa x ≡ false
  found_no_soa rr x i rrs get key n st =
      let (name, rrtype) = tell x rr key in
      no_soa tell zone x (All-get (Placed zone) rrs i x get st.placed) (rw (name, rrtype) n)

  if-Keeps :
      (rrs : List Rr) (b : Bool) (o o' : Outcome)
      → (b ≡ true → Keeps tell zone rrs o.0)
      → (b ≡ false → Keeps tell zone rrs o'.0)
      → Keeps tell zone rrs (if b then o else o').0
  if-Keeps rrs true o o' h g = h refl
  if-Keeps rrs false o o' h g = g refl

  add_rr-Keeps :
      (rr : Rr) (rrs : List Rr) (c : Bool)
      → Placed zone rr
      → (header rr).rrtype ≢ type_soa
      → Standing zone rrs
      → Keeps tell zone rrs (add_rr rr (rrs, c)).0
  unfolding add_rr
  add_rr-Keeps rr rrs c p n st = split (index_of_rr rrs rr) refl
    where
      found :
          (i : ℕ)
          → index_of_rr rrs rr ≡ some i
          → (o : Option ℕ) → ttl_at i rrs ≡ o
          → Keeps tell zone rrs (add_rr rr (rrs, c)).0
      found i q none g = rw (q, g, add_rr) (Keeps-refl tell zone rrs st)
      found i q (some ttl) g =
          let (x, get, key) = index_of_rr-get rrs rr i q in
          rw (q, g, add_rr)
            (if-Keeps rrs (ttl == (header rr).ttl) (rrs, c)
              (modify i (set_ttl (header rr).ttl) rrs, true) (λ e. Keeps-refl tell zone rrs st)
              (λ e.
                modify-Keeps tell zone i (header rr).ttl x rrs get
                  (found_no_soa rr x i rrs get key (inl n) st) st))

      split : (o : Option ℕ) → index_of_rr rrs rr ≡ o → Keeps tell zone rrs (add_rr rr (rrs, c)).0
      split none q = rw (q, add_rr) (append-Keeps tell zone rr rrs p st)
      split (some i) q = found i q (ttl_at i rrs) refl

  -- the add of a record that is no SOA
  apply_add-Keeps :
      (rr : Rr) (rrs : List Rr) (c : Bool)
      → Placed zone rr
      → (header rr).rrtype ≢ type_soa
      → Standing zone rrs
      → Keeps tell zone rrs (apply_add rr (rrs, c)).0
  unfolding apply_add
  apply_add-Keeps rr rrs c p n st =
      let h = header rr in
      let name = canonical h.name in
      if-Keeps rrs (h.rrtype == type_soa) (add_soa rr (rrs, c)) _
        (λ e. elim (n (ground (arith, e))) [ ])
        (λ _.
          if-Keeps rrs (h.rrtype == type_cname && has_non_cname rrs name) (rrs, c) _
            (λ _. Keeps-refl tell zone rrs st)
            (λ _.
              if-Keeps rrs (not (h.rrtype == type_cname) && has_cname rrs name) (rrs, c)
                (add_rr rr (rrs, c)) (λ _. Keeps-refl tell zone rrs st)
                (λ _. add_rr-Keeps rr rrs c p n st)))

  soa_at :
      (x : Rr)
      → Placed zone x
      → is_soa x ≡ true
      → (canonical (header x).name ≡ zone) × ((header x).rrtype ≡ type_soa)
  unfolding header is_soa
  soa_at (soa h s) p e = p
  soa_at (other h d) p e = ground (arith, e)

  keep-is_of :
      (rr : Rr) (rrs : List Rr)
      → ((canonical (header rr).name == zone)
          && ((header rr).rrtype == type_soa || (header rr).rrtype == type_ns))
        ≡ false
      → Standing zone rrs
      → Keeps tell zone rrs
          (keep (λ x. not (is_of (canonical (header rr).name) (header rr).rrtype x)) rrs)
  unfolding is_of same_name
  keep-is_of rr rrs e st =
      keep-Keeps tell zone (λ x. not (is_of (canonical (header rr).name) (header rr).rrtype x)) rrs
        (λ x h. ground (
          arith,
          e,
          h,
          eq_iff (canonical (header x).name) zone,
          eq_iff (canonical (header rr).name) zone,
          eq_iff (canonical (header x).name) (canonical (header rr).name),
        ))
        (λ x p h. ground (
          arith,
          e,
          soa_at x p h,
          eq_iff (canonical (header x).name) zone,
          eq_iff (canonical (header rr).name) zone,
          eq_iff (canonical (header x).name) (canonical (header rr).name),
        ))
        st

  keep-wiped :
      (name : String) (rrs : List Rr)
      → Standing zone rrs
      → Keeps tell zone rrs (keep (λ x. not (wiped zone name x)) rrs)
  unfolding wiped is_of same_name
  keep-wiped name rrs st =
      keep-Keeps tell zone (λ x. not (wiped zone name x)) rrs
        (λ x h. ground (
          arith,
          h,
          eq_iff (canonical (header x).name) zone,
          eq_iff name zone,
          eq_iff (canonical (header x).name) name,
        ))
        (λ x p h. ground (
          arith,
          soa_at x p h,
          eq_iff (canonical (header x).name) zone,
          eq_iff name zone,
          eq_iff (canonical (header x).name) name,
        ))
        st

  apply_wipe-Keeps :
      (rr : Rr) (rrs : List Rr) (c : Bool)
      → Standing zone rrs
      → Keeps tell zone rrs (apply_wipe zone rr (rrs, c)).0
  unfolding apply_wipe delete_where
  apply_wipe-Keeps rr rrs c st =
      let h = header rr in
      let name = canonical h.name in
      if-Keeps rrs (h.rrtype == type_any) (delete_where rrs c (wiped zone name)) _
        (λ _. keep-wiped name rrs st)
        (λ _.
          if-Keeps rrs (name == zone && (h.rrtype == type_soa || h.rrtype == type_ns)) (rrs, c) _
            (λ _. Keeps-refl tell zone rrs st) (λ e. keep-is_of rr rrs e st))

  not_both :
      (name : String) (t : ℕ)
      → (name == zone && t == type_soa) ≡ false
      → (t ≢ type_soa) ⊎ (name ≢ zone)
  not_both name t e = ground (arith, e, eq_iff name zone)

  ns_spared :
      (rr x : Rr) (rrs : List Rr)
      → rdata_key x ≡ rdata_key rr
      → (canonical (header rr).name == zone
          && (header rr).rrtype == type_ns
          && leb (count_rrset rrs (canonical (header rr).name) type_ns) 1)
        ≡ false
      → (is_of zone type_ns x ≡ false) ⊎ (2 ≤ count_rrset rrs zone type_ns)
  unfolding is_of same_name
  ns_spared rr x rrs key g = split (Bool-cases (canonical (header rr).name == zone))
    where
      split :
          ((canonical (header rr).name == zone) ≡ true)
            ⊎ ((canonical (header rr).name == zone) ≡ false)
          → (is_of zone type_ns x ≡ false) ⊎ (2 ≤ count_rrset rrs zone type_ns)
      split (inl e) =
          let own : canonical (header rr).name ≡ zone =
            (eq_iff (canonical (header rr).name) zone).0 e in
          ground (arith, e, tell x rr key, ap (λ n. count_rrset rrs n type_ns) own, g)
      split (inr e) = ground (
        arith,
        e,
        tell x rr key,
        eq_iff (canonical (header x).name) zone,
        eq_iff (canonical (header rr).name) zone,
      )

  -- what stands behind the two guards of class NONE
  delete_found :
      (rr : Rr) (rrs : List Rr) (c : Bool)
      → (canonical (header rr).name == zone && (header rr).rrtype == type_soa) ≡ false
      → (canonical (header rr).name == zone
          && (header rr).rrtype == type_ns
          && leb (count_rrset rrs (canonical (header rr).name) type_ns) 1)
        ≡ false
      → Standing zone rrs
      → Keeps tell zone rrs
          (elim (index_of_rr rrs rr) as (λ x. Outcome) [
            | none ↦ (rrs, c)
            | some i ↦ (remove_at i rrs, true)
          ]).0
  delete_found rr rrs c e g st = split (index_of_rr rrs rr) refl
    where
      name : String
      name = canonical (header rr).name

      split :
          (o : Option ℕ)
          → index_of_rr rrs rr ≡ o
          → Keeps tell zone rrs
              (elim o as (λ x. Outcome) [ none ↦ (rrs, c) | some i ↦ (remove_at i rrs, true) ]).0
      split none q = Keeps-refl tell zone rrs st
      split (some i) q =
          let (x, get, key) = index_of_rr-get rrs rr i q in
          remove_at-Keeps tell zone i x rrs get
            (found_no_soa rr x i rrs get key (not_both name (header rr).rrtype e) st)
            (ns_spared rr x rrs key g) st

  apply_delete-Keeps :
      (rr : Rr) (rrs : List Rr) (c : Bool)
      → Standing zone rrs
      → Keeps tell zone rrs (apply_delete zone rr (rrs, c)).0
  unfolding apply_delete
  apply_delete-Keeps rr rrs c st =
      let h = header rr in
      let name = canonical h.name in
      if-Keeps rrs (name == zone && h.rrtype == type_soa) (rrs, c) _
        (λ _. Keeps-refl tell zone rrs st)
        (λ e.
          if-Keeps rrs (name == zone && h.rrtype == type_ns && leb (count_rrset rrs name type_ns) 1)
            (rrs, c) _ (λ _. Keeps-refl tell zone rrs st) (λ g. delete_found rr rrs c e g st))

  pub apply_rr-Keeps :
      (rr : Rr) (rrs : List Rr) (c : Bool)
      → Placed zone rr
      → ((header rr).class ≢ class_inet) ⊎ ((header rr).rrtype ≢ type_soa)
      → Standing zone rrs
      → Keeps tell zone rrs (apply_rr zone rr (rrs, c)).0
  unfolding apply_rr
  apply_rr-Keeps rr rrs c p n st =
      let h = header rr in
      if-Keeps rrs (h.class == class_inet) (apply_add rr (rrs, c)) _
        (λ e.
          apply_add-Keeps rr rrs c p
            (elim n [ inl k ↦ elim (k (ground (arith, e))) [ ] | inr k ↦ k ]) st)
        (λ _.
          if-Keeps rrs (h.class == class_any) (apply_wipe zone rr (rrs, c)) _
            (λ _. apply_wipe-Keeps rr rrs c st)
            (λ _.
              if-Keeps rrs (h.class == class_none) (apply_delete zone rr (rrs, c)) (rrs, c)
                (λ _. apply_delete-Keeps rr rrs c st) (λ _. Keeps-refl tell zone rrs st)))
