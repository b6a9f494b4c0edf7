-- ===== src/Update/Apply/CnameEdits.antt =====
-- The edits of apply (dns-update-persistent/update.go) at names with a CNAME.
use coredns_ez.Prelude.{
  ℕ, ◌≡◌, refl, ap, ◌∙◌, sym, ◌⊎◌, inl, inr, String, Bool, true, false, not, Option, none, some,
  List, [], ◌∷◌, ◌++◌, keep, some_of-keep, some_of-remove_at, some_of-modify, some_of-append,
  modify, remove_at, if-cases, Bool-cases, arith, eq_iff, ◌==◌, nat_tests, text_tests, ◌&&◌, ◌||◌,
  if◌then◌else◌, leb,
}
use coredns_ez.Dns.{
  Rr, soa, other, header, with_header, type_any, type_cname, type_soa, type_ns, Dns, canonical,
}
use coredns_ez.Update.Zone.{
  same_name, is_of, has_cname, has_non_cname, beside_cname, index_of_rr, delete_where, count_rrset,
}
use coredns_ez.Update.Apply.{Outcome, set_ttl, ttl_at, add_rr, wiped, apply_wipe, apply_delete}

module _ ⦃dns : Dns⦄ where
  -- A name that owns a CNAME owns nothing else but RRSIG and NSEC.
  abbrev pub Exclusive : List Rr → Type 0
  Exclusive rrs = (name : String) → has_cname rrs name ≡ true → has_non_cname rrs name ≡ false

  abbrev pub ExclusiveOut : Outcome → Type 0
  ExclusiveOut o = Exclusive o.0

  keep-Exclusive : (q : Rr → Bool) (rrs : List Rr) → Exclusive rrs → Exclusive (keep q rrs)
  unfolding has_cname has_non_cname
  keep-Exclusive q rrs x name h = ground (
    arith,
    x name (some_of-keep (is_of name type_cname) q rrs h),
    some_of-keep (λ rr. same_name rr name && not (beside_cname (header rr).rrtype)) q rrs,
  )

  remove_at-Exclusive : (i : ℕ) (rrs : List Rr) → Exclusive rrs → Exclusive (remove_at i rrs)
  unfolding has_cname has_non_cname
  remove_at-Exclusive i rrs x name h = ground (
    arith,
    x name (some_of-remove_at (is_of name type_cname) i rrs h),
    some_of-remove_at (λ rr. same_name rr name && not (beside_cname (header rr).rrtype)) i rrs,
  )

  set_ttl-type : (ttl : ℕ) (x : Rr) → (header (set_ttl ttl x)).rrtype ≡ (header x).rrtype
  unfolding set_ttl with_header header
  set_ttl-type ttl (soa h s) = refl
  set_ttl-type ttl (other h d) = refl

  set_ttl-name : (ttl : ℕ) (x : Rr) → (header (set_ttl ttl x)).name ≡ (header x).name
  unfolding set_ttl with_header header
  set_ttl-name ttl (soa h s) = refl
  set_ttl-name ttl (other h d) = refl

  modify-Exclusive :
      (i ttl : ℕ) (rrs : List Rr) → Exclusive rrs → Exclusive (modify i (set_ttl ttl) rrs)
  unfolding has_cname has_non_cname is_of same_name
  modify-Exclusive i ttl rrs x name h =
      some_of-modify (λ rr. same_name rr name && not (beside_cname (header rr).rrtype)) i
        (set_ttl ttl) rrs (λ y. rw (set_ttl-type ttl y, set_ttl-name ttl y) refl)
      ∙ x name (
          sym (
            some_of-modify (is_of name type_cname) i (set_ttl ttl) rrs
              (λ y. rw (set_ttl-type ttl y, set_ttl-name ttl y) refl))
          ∙ h)

  has_cname-append :
      (rr : Rr) (rrs : List Rr) (name : String)
      → has_cname (rrs ++ rr ∷ []) name ≡ (
          if has_cname rrs name
          then true
          else canonical (header rr).name == name && (header rr).rrtype == type_cname)
  unfolding has_cname is_of same_name
  has_cname-append rr rrs name = some_of-append (is_of name type_cname) rrs rr

  has_non_cname-append :
      (rr : Rr) (rrs : List Rr) (name : String)
      → has_non_cname (rrs ++ rr ∷ []) name ≡ (
          if has_non_cname rrs name
          then true
          else canonical (header rr).name == name && not (beside_cname (header rr).rrtype))
  unfolding has_non_cname same_name
  has_non_cname-append rr rrs name =
      some_of-append (λ x. same_name x name && not (beside_cname (header x).rrtype)) rrs rr

  append-Exclusive :
      (rr : Rr) (rrs : List Rr)
      → ((header rr).rrtype == type_cname && has_non_cname rrs (canonical (header rr).name)) ≡ false
      → (not ((header rr).rrtype == type_cname) && has_cname rrs (canonical (header rr).name))
        ≡ false
      → Exclusive rrs
      → Exclusive (rrs ++ rr ∷ [])
  unfolding beside_cname
  append-Exclusive rr rrs e g x name h = split (Bool-cases (canonical (header rr).name == name))
    where
      split :
          ((canonical (header rr).name == name) ≡ true)
            ⊎ ((canonical (header rr).name == name) ≡ false)
          → has_non_cname (rrs ++ rr ∷ []) name ≡ false
      split (inl q) =
          let own : canonical (header rr).name ≡ name =
            (eq_iff (canonical (header rr).name) name).0 q in
          ground (
            arith,
            q,
            e,
            g,
            h,
            x name,
            ap (has_cname rrs) own,
            ap (has_non_cname rrs) own,
            has_cname-append rr rrs name,
            has_non_cname-append rr rrs name,
          )
      split (inr q) =
          ground
            (arith, q, h, x name, has_cname-append rr rrs name, has_non_cname-append rr rrs name)

  pub add_rr-Exclusive :
      (rr : Rr) (rrs : List Rr) (c : Bool)
      → ((header rr).rrtype == type_cname && has_non_cname rrs (canonical (header rr).name)) ≡ false
      → (not ((header rr).rrtype == type_cname) && has_cname rrs (canonical (header rr).name))
        ≡ false
      → Exclusive rrs
      → ExclusiveOut (add_rr rr (rrs, c))
  unfolding add_rr
  add_rr-Exclusive rr rrs c e g x = split (index_of_rr rrs rr) refl
    where
      found :
          (i : ℕ)
          → index_of_rr rrs rr ≡ some i
          → (o : Option ℕ) → ttl_at i rrs ≡ o
          → ExclusiveOut (add_rr rr (rrs, c))
      found i q none t = rw (q, t, add_rr) x
      found i q (some ttl) t =
          rw (q, t, add_rr)
            (if-cases ExclusiveOut (ttl == (header rr).ttl) (rrs, c)
              (modify i (set_ttl (header rr).ttl) rrs, true) (λ _. x)
              (λ _. modify-Exclusive i (header rr).ttl rrs x))

      split : (o : Option ℕ) → index_of_rr rrs rr ≡ o → ExclusiveOut (add_rr rr (rrs, c))
      split none q = rw (q, add_rr) (append-Exclusive rr rrs e g x)
      split (some i) q = found i q (ttl_at i rrs) refl

  pub apply_wipe-Exclusive :
      (zone : String) (rr : Rr) (rrs : List Rr) (c : Bool)
      → Exclusive rrs
      → ExclusiveOut (apply_wipe zone rr (rrs, c))
  unfolding apply_wipe delete_where
  apply_wipe-Exclusive zone rr rrs c x =
      let h = header rr in
      let name = canonical h.name in
      if-cases ExclusiveOut (h.rrtype == type_any) (delete_where rrs c (wiped zone name)) _
        (λ _. keep-Exclusive (λ y. not (wiped zone name y)) rrs x)
        (λ _.
          if-cases ExclusiveOut (name == zone && (h.rrtype == type_soa || h.rrtype == type_ns))
            (rrs, c) (delete_where rrs c (is_of name h.rrtype)) (λ _. x)
            (λ _. keep-Exclusive (λ y. not (is_of name h.rrtype y)) rrs x))

  removed :
      (o : Option ℕ) (rrs : List Rr) (c : Bool)
      → Exclusive rrs
      → ExclusiveOut
          (elim o as (λ _. Outcome) [ none ↦ (rrs, c) | some i ↦ (remove_at i rrs, true) ])
  removed none rrs c x = x
  removed (some i) rrs c x = remove_at-Exclusive i rrs x

  pub apply_delete-Exclusive :
      (zone : String) (rr : Rr) (rrs : List Rr) (c : Bool)
      → Exclusive rrs
      → ExclusiveOut (apply_delete zone rr (rrs, c))
  unfolding apply_delete
  apply_delete-Exclusive zone rr rrs c x =
      let h = header rr in
      let name = canonical h.name in
      if-cases ExclusiveOut (name == zone && h.rrtype == type_soa) (rrs, c) _ (λ _. x)
        (λ _.
          if-cases ExclusiveOut
            (name == zone && h.rrtype == type_ns && leb (count_rrset rrs name type_ns) 1) (rrs, c) _
            (λ _. x) (λ _. removed (index_of_rr rrs rr) rrs c x))
