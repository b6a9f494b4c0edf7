-- ===== src/Update/Apply/Edits.antt =====
-- The edits of apply (dns-update-persistent/update.go) at the apex of the zone.
use coredns_ez.Prelude.{
  ℕ, zero, suc, ◌+◌, ◌≡◌, ◌≢◌, ◌≤◌, refl, sym, ap, ◌∙◌, ◌⊎◌, inl, inr, String, Bool, true, false,
  none, some, List, [], ◌∷◌, ◌++◌, All, All-append, All-keep, All-remove_at, All-modify, All-map,
  count-append, count-keep, count-modify, count-remove_at, keep, get_elem?, remove_at, modify,
  arith, eq_iff, ◌==◌, nat_tests, text_tests, if◌then◌else◌,
}
use coredns_ez.Dns.{
  Rr, soa, other, header, is_soa, soa_of, type_ns, type_soa, Dns, canonical, with_header,
}
use coredns_ez.Update.Zone.{same_name, is_of, index_from, index_of_rr, rdata_key, count_rrset}
use coredns_ez.Update.Apply.{set_ttl}

module _ ⦃dns : Dns⦄ where
  -- The text of a record tells its name and its type.
  abbrev pub KeysTell : Type 0
  KeysTell =
      (a b : Rr)
      → rdata_key a ≡ rdata_key b
      → (canonical (header a).name ≡ canonical (header b).name)
        × ((header a).rrtype ≡ (header b).rrtype)

  -- an SOA stands at the apex, and its header says that it is one
  abbrev pub Placed : String → Rr → Type 0
  Placed zone (soa h s) = (canonical h.name ≡ zone) × (h.rrtype ≡ type_soa)
  Placed zone (other h d) = Unit

  -- what a zone needs to be one
  pub record Standing (zone : String) (rrs : List Rr) : Type 0 where
    pub placed : All (Placed zone) rrs
    pub has_soa : soa_of rrs ≢ none
    pub has_ns : 1 ≤ count_rrset rrs zone type_ns

  abbrev FoundAt : ℕ → List Rr → String → ℕ → Type 0
  FoundAt i rrs k j =
      (n : ℕ) × (x : Rr) × (j ≡ i + n) × (get_elem? rrs n ≡ some x) × (rdata_key x ≡ k)

  index_from-get :
      (i : ℕ) (rrs : List Rr) (k : String) (j : ℕ) → index_from i rrs k ≡ some j → FoundAt i rrs k j
  unfolding index_from
  index_from-get i [] k j h = ground arith
  index_from-get i (rr ∷ rrs) k j h =
      split (rdata_key rr == k) refl h (index_from-get (suc i) rrs k j)
    where
      split :
          (b : Bool)
          → (rdata_key rr == k) ≡ b
          → (if b then some i else index_from (suc i) rrs k) ≡ some j
          → (index_from (suc i) rrs k ≡ some j → FoundAt (suc i) rrs k j)
          → FoundAt i (rr ∷ rrs) k j
      split true q g rest =
          (0, rr, ground (arith, g), refl, ground (arith, eq_iff (rdata_key rr) k, q))
      split false q g rest =
          let (n, x, at, get, key) = rest g in (suc n, x, ground (arith, at), get, key)

  pub index_of_rr-get :
      (rrs : List Rr) (rr : Rr) (i : ℕ)
      → index_of_rr rrs rr ≡ some i
      → (x : Rr) × (get_elem? rrs i ≡ some x) × (rdata_key x ≡ rdata_key rr)
  unfolding index_of_rr
  index_of_rr-get rrs rr i h =
      let (n, x, at, get, key) = index_from-get 0 rrs (rdata_key rr) i h in
      (x, ap (get_elem? rrs) (omega (arith, at)) ∙ get, key)

  set_ttl-Placed : (zone : String) (ttl : ℕ) (x : Rr) → Placed zone x → Placed zone (set_ttl ttl x)
  unfolding set_ttl with_header header
  set_ttl-Placed zone ttl (soa h s) p = p
  set_ttl-Placed zone ttl (other h d) p = p

  set_ttl-is_of :
      (name : String) (t ttl : ℕ) (x : Rr) → is_of name t (set_ttl ttl x) ≡ is_of name t x
  unfolding set_ttl with_header header is_of same_name
  set_ttl-is_of name t ttl (soa h s) = refl
  set_ttl-is_of name t ttl (other h d) = refl

  soa_of-append : (xs ys : List Rr) → soa_of xs ≢ none → soa_of (xs ++ ys) ≡ soa_of xs
  unfolding soa_of
  soa_of-append [] ys h = elim (h refl) [ ]
  soa_of-append (soa g s ∷ xs) ys h = refl
  soa_of-append (other g d ∷ xs) ys h = soa_of-append xs ys h

  soa_of-keep :
      (q : Rr → Bool) (xs : List Rr)
      → All (λ x. is_soa x ≡ true → q x ≡ true) xs
      → soa_of (keep q xs) ≡ soa_of xs
  unfolding soa_of is_soa
  soa_of-keep q [] h = refl
  soa_of-keep q (soa g s ∷ xs) (p, h) = ground (arith, p refl)
  soa_of-keep q (other g d ∷ xs) (p, h) = ground (arith, soa_of-keep q xs h)

  soa_of-remove_at :
      (i : ℕ) (xs : List Rr) (x : Rr)
      → get_elem? xs i ≡ some x
      → is_soa x ≡ false
      → soa_of (remove_at i xs) ≡ soa_of xs
  unfolding soa_of is_soa
  soa_of-remove_at i [] x h q = refl
  soa_of-remove_at zero (soa g s ∷ xs) x h q = ground arith
  soa_of-remove_at zero (other g s ∷ xs) x h q = ground arith
  soa_of-remove_at (suc i) (soa g s ∷ xs) x h q = refl
  soa_of-remove_at (suc i) (other g s ∷ xs) x h q = soa_of-remove_at i xs x h q

  soa_of-modify :
      (i ttl : ℕ) (xs : List Rr) (x : Rr)
      → get_elem? xs i ≡ some x
      → is_soa x ≡ false
      → soa_of (modify i (set_ttl ttl) xs) ≡ soa_of xs
  unfolding soa_of is_soa set_ttl with_header header
  soa_of-modify i ttl [] x h q = refl
  soa_of-modify zero ttl (soa g s ∷ xs) x h q = ground (arith, h)
  soa_of-modify zero ttl (other g s ∷ xs) x h q = refl
  soa_of-modify (suc i) ttl (soa g s ∷ xs) x h q = refl
  soa_of-modify (suc i) ttl (other g s ∷ xs) x h q = soa_of-modify i ttl xs x h q

same_value {ℓ} : {A : Type ℓ} (y x : A) → some y ≡ some x → y ≡ x
same_value y x h = cc

-- Reading out of a list of which every entry satisfies a predicate.
pub All-get {ℓ κ} :
    {A : Type ℓ} (P : A → Type κ) (xs : List A) (i : ℕ) (x : A)
    → get_elem? xs i ≡ some x
    → All P xs
    → P x
All-get P [] i x h a = ground arith
All-get P (y ∷ xs) zero x h (p, a) = rw (sym (same_value y x h)) p
All-get P (y ∷ xs) (suc i) x h (p, a) = All-get P xs i x h a

module _ ⦃dns : Dns⦄ (tell : KeysTell) (zone : String) where
  -- An edit that keeps the SOA as it is.
  pub record Keeps (rrs rrs' : List Rr) : Type 0 where
    pub placed : All (Placed zone) rrs'
    pub same_soa : soa_of rrs' ≡ soa_of rrs
    pub has_ns : 1 ≤ count_rrset rrs' zone type_ns

  pub Keeps-refl : (rrs : List Rr) → Standing zone rrs → Keeps rrs rrs
  Keeps-refl rrs st = record { placed = st.placed; same_soa = refl; has_ns = st.has_ns }

  pub Keeps-Standing :
      (rrs rrs' : List Rr) → Standing zone rrs → Keeps rrs rrs' → Standing zone rrs'
  Keeps-Standing rrs rrs' st k = record {
    placed = k.placed;
    has_soa = rw k.same_soa st.has_soa;
    has_ns = k.has_ns;
  }

  pub no_soa :
      (x : Rr)
      → Placed zone x
      → ((header x).rrtype ≢ type_soa) ⊎ (canonical (header x).name ≢ zone)
      → is_soa x ≡ false
  unfolding header is_soa
  no_soa (soa h s) (p, q) (inl n) = elim (n q) [ ]
  no_soa (soa h s) (p, q) (inr n) = elim (n p) [ ]
  no_soa (other h d) p n = refl

  pub append-Keeps :
      (rr : Rr) (rrs : List Rr) → Placed zone rr → Standing zone rrs → Keeps rrs (rrs ++ rr ∷ [])
  unfolding count_rrset
  append-Keeps rr rrs p st = record {
    placed = All-append (Placed zone) rrs (rr ∷ []) st.placed (p, tt);
    same_soa = soa_of-append rrs (rr ∷ []) st.has_soa;
    has_ns = omega (arith, count-append (is_of zone type_ns) rrs (rr ∷ []), st.has_ns);
  }

  pub modify-Keeps :
      (i ttl : ℕ) (x : Rr) (rrs : List Rr)
      → get_elem? rrs i ≡ some x
      → is_soa x ≡ false
      → Standing zone rrs
      → Keeps rrs (modify i (set_ttl ttl) rrs)
  unfolding count_rrset
  modify-Keeps i ttl x rrs h q st = record {
    placed = All-modify (Placed zone) i (set_ttl ttl) rrs (set_ttl-Placed zone ttl) st.placed;
    same_soa = soa_of-modify i ttl rrs x h q;
    has_ns = omega (
      arith,
      count-modify (is_of zone type_ns) i (set_ttl ttl) rrs (set_ttl-is_of zone type_ns ttl),
      st.has_ns,
    );
  }

  pub keep-Keeps :
      (q : Rr → Bool) (rrs : List Rr)
      → ((x : Rr) → is_of zone type_ns x ≡ true → q x ≡ true)
      → ((x : Rr) → Placed zone x → is_soa x ≡ true → q x ≡ true)
      → Standing zone rrs
      → Keeps rrs (keep q rrs)
  unfolding count_rrset
  keep-Keeps q rrs ns soas st = record {
    placed = All-keep (Placed zone) q rrs st.placed;
    same_soa = soa_of-keep q rrs (All-map rrs soas st.placed);
    has_ns = omega (arith, count-keep (is_of zone type_ns) q rrs ns, st.has_ns);
  }

  pub remove_at-Keeps :
      (i : ℕ) (x : Rr) (rrs : List Rr)
      → get_elem? rrs i ≡ some x
      → is_soa x ≡ false
      → (is_of zone type_ns x ≡ false) ⊎ (2 ≤ count_rrset rrs zone type_ns)
      → Standing zone rrs
      → Keeps rrs (remove_at i rrs)
  unfolding count_rrset
  remove_at-Keeps i x rrs h q ns st = record {
    placed = All-remove_at (Placed zone) i rrs st.placed;
    same_soa = soa_of-remove_at i rrs x h q;
    has_ns = ground (arith, count-remove_at (is_of zone type_ns) i rrs x h, st.has_ns, ns);
  }
