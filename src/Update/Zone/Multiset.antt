-- ===== src/Update/Zone/Multiset.antt =====
-- sameRRset (dns-update-persistent/zone.go): how often each key occurs.
use coredns_ez.Prelude.{
  ℕ, zero, suc, ◌+◌, ◌-◌, ◌≤◌, ◌≡◌, ◌↔◌, refl, ap, String, Bool, true, false, some, List, [], ◌∷◌,
  length, get_elem?, remove_at, arith, eq_iff, ◌==◌, nat_tests, text_tests, if◌then◌else◌,
}
use coredns_ez.Dns.{Rr, Dns}
use coredns_ez.Update.Zone.{rdata_key, count_key, use_counts, same_rrset}

module _ ⦃dns : Dns⦄ where
  use_counts-true :
      (counts : String → ℕ) (want : List Rr)
      → ((k : String) → count_key k want ≤ counts k)
      → use_counts counts want ≡ true
  unfolding use_counts count_key
  use_counts-true counts [] h = refl
  use_counts-true counts (rr ∷ want) h = ground (
    arith,
    h (rdata_key rr),
    eq_iff (rdata_key rr) (rdata_key rr),
    use_counts-true (λ x. if rdata_key rr == x then counts x - 1 else counts x) want
        (λ k. ground (arith, h k)),
  )

  use_counts-le :
      (counts : String → ℕ) (want : List Rr) (k : String)
      → use_counts counts want ≡ true
      → count_key k want ≤ counts k
  unfolding use_counts count_key
  use_counts-le counts [] k h = ground arith
  use_counts-le counts (rr ∷ want) k h =
      let rest =
        use_counts-le (λ x. if rdata_key rr == x then counts x - 1 else counts x) want k
          (ground (arith, h)) in
      ground (arith, h, rest, ap counts, eq_iff (rdata_key rr) k)

  count_key-get :
      (k : String) (rrs : List Rr)
      → 1 ≤ count_key k rrs
      → (i : ℕ) × (x : Rr) × (get_elem? rrs i ≡ some x) × (rdata_key x ≡ k)
  unfolding count_key
  count_key-get k [] h = ground (arith, h)
  count_key-get k (rr ∷ rrs) h = split (rdata_key rr == k) refl (count_key-get k rrs)
    where
      Found : List Rr → Type 0
      Found xs = (i : ℕ) × (x : Rr) × (get_elem? xs i ≡ some x) × (rdata_key x ≡ k)

      split :
          (b : Bool)
          → (rdata_key rr == k) ≡ b
          → (1 ≤ count_key k rrs → Found rrs)
          → Found (rr ∷ rrs)
      split true q rest = (0, rr, refl, (eq_iff (rdata_key rr) k).0 q)
      split false q rest =
          let (i, x, get, key) = rest (ground (arith, h, q)) in (suc i, x, get, key)

  count_key-remove_at :
      (k : String) (i : ℕ) (rrs : List Rr) (x : Rr)
      → get_elem? rrs i ≡ some x
      → count_key k rrs ≡ (if rdata_key x == k then 1 else 0) + count_key k (remove_at i rrs)
  unfolding count_key
  count_key-remove_at k i [] x h = ground (arith, h)
  count_key-remove_at k zero (y ∷ rrs) x h = ground (arith, h)
  count_key-remove_at k (suc i) (y ∷ rrs) x h = ground (arith, count_key-remove_at k i rrs x h)

  length-remove_at :
      (i : ℕ) (rrs : List Rr) (x : Rr)
      → get_elem? rrs i ≡ some x
      → length rrs ≡ suc (length (remove_at i rrs))
  length-remove_at i [] x h = ground (arith, h)
  length-remove_at zero (y ∷ rrs) x h = refl
  length-remove_at (suc i) (y ∷ rrs) x h = ap suc (length-remove_at i rrs x h)

  -- as many entries, and no key rarer: then no key is more frequent either
  counts_equal :
      (have want : List Rr)
      → length have ≡ length want
      → ((k : String) → count_key k want ≤ count_key k have)
      → (k : String) → count_key k have ≡ count_key k want
  unfolding count_key
  counts_equal [] [] e h k = refl
  counts_equal (x ∷ have) [] e h k = ground (arith, e)
  counts_equal have (rr ∷ want) e h k =
      let (i, x, get, key) =
        count_key-get (rdata_key rr) have
          (ground (arith, h (rdata_key rr), eq_iff (rdata_key rr) (rdata_key rr))) in
      let rest =
        counts_equal (remove_at i have) want (omega (arith, e, length-remove_at i have x get))
          (λ j. ground (arith, h j, count_key-remove_at j i have x get, key)) in
      ground (arith, rest k, count_key-remove_at k i have x get, key)

  counts-length :
      (have want : List Rr)
      → ((k : String) → count_key k have ≡ count_key k want)
      → length have ≡ length want
  unfolding count_key
  counts-length [] [] h = refl
  counts-length (x ∷ have) [] h =
      ground (arith, h (rdata_key x), eq_iff (rdata_key x) (rdata_key x))
  counts-length have (rr ∷ want) h =
      let (i, x, get, key) =
        count_key-get (rdata_key rr) have
          (ground (arith, h (rdata_key rr), eq_iff (rdata_key rr) (rdata_key rr))) in
      let rest =
        counts-length (remove_at i have) want
          (λ j. ground (arith, h j, count_key-remove_at j i have x get, key)) in
      omega (arith, rest, length-remove_at i have x get)

  pub same_rrset-counts :
      (have want : List Rr)
      → same_rrset have want ≡ true
      → (k : String) → count_key k have ≡ count_key k want
  unfolding same_rrset
  same_rrset-counts have want h k =
      counts_equal have want (ground (arith, h))
        (λ j. use_counts-le (λ i. count_key i have) want j (ground (arith, h))) k

  -- Two lists of records are the same RRset exactly if every key occurs in both equally often,
  -- whatever their order is.
  pub same_rrset_iff :
      (have want : List Rr)
      → (same_rrset have want ≡ true) ↔ ((k : String) → count_key k have ≡ count_key k want)
  unfolding same_rrset
  same_rrset_iff have want = (
    same_rrset-counts have want,
    λ h. ground (
      arith,
      counts-length have want h,
      use_counts-true (λ k. count_key k have) want (λ k. omega (arith, h k)),
    ),
  )
