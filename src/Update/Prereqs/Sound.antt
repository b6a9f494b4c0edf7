-- ===== src/Update/Prereqs/Sound.antt =====
-- checkPrereqs (dns-update-persistent/update.go) and the records of the zone.
use coredns_ez.Prelude.{
  ℕ, ◌≡◌, ◌≢◌, ◌≤◌, ◌↔◌, refl, sym, ap, ◌∙◌, ◌⊎◌, String, Bool, true, false, List, [], ◌∷◌, ◌++◌,
  Result, ok, err, ◌>>=◌, All, keep, append_assoc, append-nil, length, arith, eq_iff, ◌==◌,
  nat_tests, text_tests, ◌&&◌, if◌then◌else◌,
}
use coredns_ez.Dns.{Rr, header, type_any, class_any, class_none, class_inet, Rcode, success, Dns}
use coredns_ez.Update.Zone.{
  key_of, in_zone, name_in_use, rrset_exists, rrset_of, same_rrset, rdata_key, count_key,
}
use coredns_ez.Update.Zone.Multiset.{same_rrset-counts}
use coredns_ez.Update.Prereqs.{
  RrsetKey, key_eq, ValueDependent, append_at, must_exist, must_not_exist, check_prereq,
  scan_prereqs, check_values, check_prereqs,
}

-- what the map holds at a key
values_at : RrsetKey → ValueDependent → List Rr
values_at k [] = []
values_at k ((j, rrs) ∷ m) = if key_eq j k then rrs else values_at k m

key_eq_iff : (j k : RrsetKey) → (key_eq j k ≡ true) ↔ (j ≡ k)
key_eq_iff (n, t) (m, u) = (
  λ h.
      let p : n ≡ m = (eq_iff n m).0 (ground (arith, h)) in
      let q : t ≡ u = ground (arith, h) in rw (p, q) refl,
  λ h. ground (arith, eq_iff n m, ap (λ x. x.0) h, ap (λ x. x.1) h),
)

values_at-append_at :
    (k j : RrsetKey) (rr : Rr) (m : ValueDependent)
    → values_at k (append_at j rr m)
      ≡ (if key_eq j k then values_at k m ++ rr ∷ [] else values_at k m)
unfolding values_at append_at
values_at-append_at k j rr [] = ground arith
values_at-append_at k j rr ((i, rrs) ∷ m) =
    ground (arith, values_at-append_at k j rr m, key_eq_iff i j, key_eq_iff i k, key_eq_iff j k)

un_ok : Result Rcode ValueDependent → ValueDependent
un_ok (ok m) = m
un_ok (err e) = []

keep-cons :
    (q : Rr → Bool) (rr : Rr) (rrs : List Rr) → keep q (rr ∷ []) ++ keep q rrs ≡ keep q (rr ∷ rrs)
keep-cons q rr rrs = if-append (q rr)
  where
    if-append :
        (b : Bool)
        → (if b then rr ∷ [] else []) ++ keep q rrs ≡ (if b then rr ∷ keep q rrs else keep q rrs)
    if-append true = refl
    if-append false = refl

module _ ⦃dns : Dns⦄ where
  -- how many of the records have the key `k`, which tells the contents of records apart
  abbrev pub times : String → List Rr → ℕ
  times k rrs = length (keep (λ rr. rdata_key rr == k) rrs)

  count_key-times : (k : String) (rrs : List Rr) → count_key k rrs ≡ times k rrs
  unfolding count_key
  count_key-times k [] = refl
  count_key-times k (rr ∷ rrs) = ground (arith, count_key-times k rrs)

  same_rrset-times :
      (have want : List Rr)
      → same_rrset have want ≡ true
      → (k : String) → times k have ≡ times k want
  same_rrset-times have want e k =
      sym (count_key-times k have) ∙ same_rrset-counts have want e k ∙ count_key-times k want

module _ ⦃dns : Dns⦄ (rrs : List Rr) (zone : String) where
  -- a class IN prerequisite of a key
  abbrev pub asks : RrsetKey → Rr → Bool
  asks k rr =
      (header rr).class == class_inet && key_eq (key_of (header rr).name (header rr).rrtype) k

  -- what RFC 2136 section 2.4 says of a prerequisite of class ANY or NONE
  abbrev pub Met : Rr → Type 0
  Met rr =
      let h = header rr in
      (h.ttl ≡ 0)
      × (in_zone zone h.name ≡ true)
      × ((h.class ≡ class_any)
            × (((h.rrtype ≡ type_any) × (name_in_use rrs h.name ≡ true))
                ⊎ ((h.rrtype ≢ type_any) × (rrset_exists rrs h.name h.rrtype ≡ true)))
          ⊎ ((h.class ≡ class_none)
                × (((h.rrtype ≡ type_any) × (name_in_use rrs h.name ≡ false))
                    ⊎ ((h.rrtype ≢ type_any) × (rrset_exists rrs h.name h.rrtype ≡ false)))
              ⊎ (h.class ≡ class_inet)))

  check_prereq-Met :
      (rr : Rr) (vd vd' : ValueDependent) → check_prereq rrs zone rr vd ≡ ok vd' → Met rr
  unfolding check_prereq must_exist must_not_exist
  check_prereq-Met rr vd vd' e = ground (arith, e)

  check_prereq-values :
      (k : RrsetKey) (rr : Rr) (vd vd' : ValueDependent)
      → check_prereq rrs zone rr vd ≡ ok vd'
      → values_at k vd' ≡ values_at k vd ++ keep (asks k) (rr ∷ [])
  unfolding check_prereq must_exist must_not_exist
  check_prereq-values k rr vd vd' e = ground (
    arith,
    e,
    append-nil (values_at k vd),
    values_at-append_at k (key_of (header rr).name (header rr).rrtype) rr vd,
    ap (values_at k),
  )

  scan_prereqs-Met :
      (prereqs : List Rr) (vd vd' : ValueDependent)
      → scan_prereqs rrs zone prereqs vd ≡ ok vd'
      → All Met prereqs
        × ((k : RrsetKey) → values_at k vd' ≡ values_at k vd ++ keep (asks k) prereqs)
  unfolding scan_prereqs un_ok
  scan_prereqs-Met [] vd vd' e =
      (tt, λ k. ap (values_at k) (sym (ap un_ok e)) ∙ sym (append-nil (values_at k vd)))
  scan_prereqs-Met (rr ∷ prereqs) vd vd' e =
      split (check_prereq rrs zone rr vd) refl e (scan_prereqs-Met prereqs)
    where
      Passed : List Rr → ValueDependent → ValueDependent → Type 0
      Passed ps m m' =
          All Met ps × ((k : RrsetKey) → values_at k m' ≡ values_at k m ++ keep (asks k) ps)

      split :
          (o : Result Rcode ValueDependent)
          → check_prereq rrs zone rr vd ≡ o
          → (o >>= scan_prereqs rrs zone prereqs) ≡ ok vd'
          → ((m m' : ValueDependent)
              → scan_prereqs rrs zone prereqs m ≡ ok m'
              → Passed prereqs m m')
          → Passed (rr ∷ prereqs) vd vd'
      split (err r) q g rest = ground (arith, g)
      split (ok m) q g rest =
          let (met, values) = rest m vd' g in
          (
            (check_prereq-Met rr vd m q, met),
            λ k.
                values k
                ∙ ap (λ l. l ++ keep (asks k) prereqs) (check_prereq-values k rr vd m q)
                ∙ append_assoc (values_at k vd) (keep (asks k) (rr ∷ [])) (keep (asks k) prereqs)
                ∙ ap (values_at k vd ++◌) (keep-cons (asks k) rr prereqs),
          )

  check_prereq-err :
      (rr : Rr) (vd : ValueDependent) (r : Rcode)
      → check_prereq rrs zone rr vd ≡ err r
      → r ≢ success
  unfolding check_prereq must_exist must_not_exist
  check_prereq-err rr vd r e h = ground (arith, e, h)

  scan_prereqs-err :
      (prereqs : List Rr) (vd : ValueDependent) (r : Rcode)
      → scan_prereqs rrs zone prereqs vd ≡ err r
      → r ≢ success
  unfolding scan_prereqs
  scan_prereqs-err [] vd r e = ground (arith, e)
  scan_prereqs-err (rr ∷ prereqs) vd r e =
      split (check_prereq rrs zone rr vd) refl e (λ m g. scan_prereqs-err prereqs m r g)
    where
      split :
          (o : Result Rcode ValueDependent)
          → check_prereq rrs zone rr vd ≡ o
          → (o >>= scan_prereqs rrs zone prereqs) ≡ err r
          → ((m : ValueDependent) → scan_prereqs rrs zone prereqs m ≡ err r → r ≢ success)
          → r ≢ success
      split (ok m) q g rest = rest m g
      split (err x) q g rest = λ h. check_prereq-err rr vd x q (ground (arith, g, h))

  check_values-same :
      (vd : ValueDependent) (name : String) (rrtype : ℕ)
      → check_values rrs zone vd ≡ success
      → 1 ≤ length (values_at (name, rrtype) vd)
      → same_rrset (rrset_of rrs name rrtype) (values_at (name, rrtype) vd) ≡ true
  unfolding check_values values_at
  check_values-same [] name rrtype e n = ground (arith, n)
  check_values-same ((j, want) ∷ vd) name rrtype e n =
      split (key_eq j (name, rrtype)) refl
        (λ g. check_values-same vd name rrtype (ground (arith, e)) g)
    where
      Same : List Rr → Type 0
      Same l = same_rrset (rrset_of rrs name rrtype) l ≡ true

      split :
          (b : Bool)
          → key_eq j (name, rrtype) ≡ b
          → (1 ≤ length (values_at (name, rrtype) vd) → Same (values_at (name, rrtype) vd))
          → Same (if b then want else values_at (name, rrtype) vd)
      split true q rest = ground (
        arith,
        e,
        ap (λ k. same_rrset (rrset_of rrs k.0 k.1) want) ((key_eq_iff j (name, rrtype)).0 q),
      )
      split false q rest = rest (ground (arith, n, q))

  -- If the prerequisites of an update pass, then each of them has TTL 0 and is in the zone; the
  -- names and RRsets that class ANY asks for exist and those of class NONE do not; and for each
  -- name and type for which class IN lists records, wherever they stand in the section, the zone's
  -- RRset is made up of those records: every key of the contents of a record is as often in the one
  -- as in the other.
  pub check_prereqs-Met :
      (prereqs : List Rr)
      → check_prereqs rrs zone prereqs ≡ success
      → All Met prereqs
        × ((name : String) (rrtype : ℕ)
            → 1 ≤ length (keep (asks (name, rrtype)) prereqs)
            → (k : String)
            → times k (rrset_of rrs name rrtype) ≡ times k (keep (asks (name, rrtype)) prereqs))
  unfolding check_prereqs values_at
  check_prereqs-Met prereqs e = split (scan_prereqs rrs zone prereqs []) refl e
    where
      split :
          (o : Result Rcode ValueDependent)
          → scan_prereqs rrs zone prereqs [] ≡ o
          → (elim o [ ok vd ↦ check_values rrs zone vd | err r ↦ r ]) ≡ success
          → All Met prereqs
            × ((name : String) (rrtype : ℕ)
                → 1 ≤ length (keep (asks (name, rrtype)) prereqs)
                → (k : String)
                → times k (rrset_of rrs name rrtype) ≡ times k (keep (asks (name, rrtype)) prereqs))
      split (ok vd) q g =
          let (met, values) = scan_prereqs-Met prereqs [] vd q in
          (
            met,
            λ name rrtype n.
                same_rrset-times (rrset_of rrs name rrtype) (keep (asks (name, rrtype)) prereqs) (
                  rw (sym (values (name, rrtype)))
                    (check_values-same vd name rrtype g (rw (values (name, rrtype)) n))),
          )
      split (err r) q g = elim (scan_prereqs-err prereqs [] r q g) [ ]
