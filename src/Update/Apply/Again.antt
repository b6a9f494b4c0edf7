-- ===== src/Update/Apply/Again.antt =====
-- The add of a record (dns-update-persistent/update.go), done twice.
use coredns_ez.Prelude.{
  ℕ, zero, suc, ◌+◌, ◌≡◌, refl, ap, ◌∙◌, String, Bool, true, false, Option, none, some, List, [],
  ◌∷◌, ◌++◌, length, modify, arith, eq_iff, ◌==◌, nat_tests, text_tests, if◌then◌else◌,
}
use coredns_ez.Dns.{Rr, soa, other, header, with_header, Dns}
use coredns_ez.Update.Zone.{index_from, index_of_rr, rdata_key}
use coredns_ez.Update.Apply.{Outcome, set_ttl, ttl_at, add_rr}

module _ ⦃dns : Dns⦄ where
  set_ttl-rdata_key : (ttl : ℕ) (x : Rr) → rdata_key (set_ttl ttl x) ≡ rdata_key x
  unfolding rdata_key set_ttl with_header header
  set_ttl-rdata_key ttl (soa h s) = refl
  set_ttl-rdata_key ttl (other h d) = refl

  index_from-append :
      (i : ℕ) (rrs : List Rr) (rr : Rr)
      → index_from i rrs (rdata_key rr) ≡ none
      → index_from i (rrs ++ rr ∷ []) (rdata_key rr) ≡ some (i + length rrs)
  unfolding index_from
  index_from-append i [] rr h = ground (arith, eq_iff (rdata_key rr) (rdata_key rr))
  index_from-append i (x ∷ rrs) rr h = ground (arith, h, index_from-append (suc i) rrs rr)

  index_from-modify :
      (i j ttl : ℕ) (rrs : List Rr) (k : String)
      → index_from i (modify j (set_ttl ttl) rrs) k ≡ index_from i rrs k
  unfolding index_from
  index_from-modify i j ttl [] k = refl
  index_from-modify i zero ttl (x ∷ rrs) k = rw (set_ttl-rdata_key ttl x) refl
  index_from-modify i (suc j) ttl (x ∷ rrs) k = rw (index_from-modify (suc i) j ttl rrs k) refl

  ttl_at-append :
      (rrs : List Rr) (rr : Rr) → ttl_at (length rrs) (rrs ++ rr ∷ []) ≡ some (header rr).ttl
  unfolding ttl_at
  ttl_at-append [] rr = refl
  ttl_at-append (x ∷ rrs) rr = ttl_at-append rrs rr

  set_ttl-ttl : (ttl : ℕ) (x : Rr) → (header (set_ttl ttl x)).ttl ≡ ttl
  unfolding set_ttl with_header header
  set_ttl-ttl ttl (soa h s) = refl
  set_ttl-ttl ttl (other h d) = refl

  ttl_at-modify :
      (i ttl old : ℕ) (rrs : List Rr)
      → ttl_at i rrs ≡ some old
      → ttl_at i (modify i (set_ttl ttl) rrs) ≡ some ttl
  unfolding ttl_at
  ttl_at-modify i ttl old [] h = ground (arith, h)
  ttl_at-modify zero ttl old (x ∷ rrs) h = ap some (set_ttl-ttl ttl x)
  ttl_at-modify (suc i) ttl old (x ∷ rrs) h = ttl_at-modify i ttl old rrs h

  -- what add_rr does with a record that is there with this TTL
  add_rr-present :
      (rr : Rr) (rrs : List Rr) (i : ℕ)
      → index_of_rr rrs rr ≡ some i
      → ttl_at i rrs ≡ some (header rr).ttl
      → add_rr rr (rrs, false) ≡ (rrs, false)
  unfolding add_rr
  add_rr-present rr rrs i q t = rw (q, t, add_rr) (ground arith)

  add_rr-append :
      (rr : Rr) (rrs : List Rr) (c : Bool)
      → index_of_rr rrs rr ≡ none
      → add_rr rr (rrs, c) ≡ (rrs ++ rr ∷ [], true)
  unfolding add_rr
  add_rr-append rr rrs c q = rw (q, add_rr) refl

  add_rr-no_ttl :
      (rr : Rr) (rrs : List Rr) (i : ℕ) (c : Bool)
      → index_of_rr rrs rr ≡ some i
      → ttl_at i rrs ≡ none
      → add_rr rr (rrs, c) ≡ (rrs, c)
  unfolding add_rr
  add_rr-no_ttl rr rrs i c q t = rw (q, t, add_rr) refl

  add_rr-found :
      (rr : Rr) (rrs : List Rr) (i ttl : ℕ) (c : Bool)
      → index_of_rr rrs rr ≡ some i
      → ttl_at i rrs ≡ some ttl
      → add_rr rr (rrs, c) ≡ (
          if ttl == (header rr).ttl
          then (rrs, c)
          else (modify i (set_ttl (header rr).ttl) rrs, true))
  unfolding add_rr
  add_rr-found rr rrs i ttl c q t = rw (q, t, add_rr) refl

  index_of_rr-append :
      (rr : Rr) (rrs : List Rr)
      → index_of_rr rrs rr ≡ none
      → index_of_rr (rrs ++ rr ∷ []) rr ≡ some (length rrs)
  unfolding index_of_rr
  index_of_rr-append rr rrs q = ground (arith, index_from-append 0 rrs rr q)

  index_of_rr-modify :
      (rr : Rr) (rrs : List Rr) (i ttl : ℕ)
      → index_of_rr (modify i (set_ttl ttl) rrs) rr ≡ index_of_rr rrs rr
  unfolding index_of_rr
  index_of_rr-modify rr rrs i ttl = index_from-modify 0 i ttl rrs (rdata_key rr)

  -- After a record that is no SOA was added, by a new entry, a new TTL or not at all, to add it
  -- once more changes nothing and reports no change.
  pub add_rr-again :
      (rr : Rr) (rrs : List Rr) (c : Bool)
      → let out = (add_rr rr (rrs, c)).0 in add_rr rr (out, false) ≡ (out, false)
  add_rr-again rr rrs c = split (index_of_rr rrs rr) refl
    where
      Stays : Outcome → Type 0
      Stays o = add_rr rr (o.0, false) ≡ (o.0, false)

      renewed :
          (i ttl : ℕ)
          → index_of_rr rrs rr ≡ some i
          → ttl_at i rrs ≡ some ttl
          → (b : Bool) → (ttl == (header rr).ttl) ≡ b
          → Stays (if b then (rrs, c) else (modify i (set_ttl (header rr).ttl) rrs, true))
      renewed i ttl q t true e =
          add_rr-present rr rrs i q (t ∙ ap some ((nat_tests.test_iff ttl (header rr).ttl).0 e))
      renewed i ttl q t false e =
          add_rr-present rr (modify i (set_ttl (header rr).ttl) rrs) i
            (index_of_rr-modify rr rrs i (header rr).ttl ∙ q)
            (ttl_at-modify i (header rr).ttl ttl rrs t)

      found :
          (i : ℕ)
          → index_of_rr rrs rr ≡ some i
          → (o : Option ℕ) → ttl_at i rrs ≡ o
          → Stays (add_rr rr (rrs, c))
      found i q none t = rw (add_rr-no_ttl rr rrs i c q t) (add_rr-no_ttl rr rrs i false q t)
      found i q (some ttl) t =
          rw (add_rr-found rr rrs i ttl c q t) (renewed i ttl q t (ttl == (header rr).ttl) refl)

      split : (o : Option ℕ) → index_of_rr rrs rr ≡ o → Stays (add_rr rr (rrs, c))
      split none q = rw (add_rr-append rr rrs c q) (
          add_rr-present rr (rrs ++ rr ∷ []) (length rrs) (index_of_rr-append rr rrs q)
            (ttl_at-append rrs rr))
      split (some i) q = found i q (ttl_at i rrs) refl
