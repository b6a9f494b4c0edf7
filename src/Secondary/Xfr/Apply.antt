-- ===== src/Secondary/Xfr/Apply.antt =====
-- What a secondary holds after it has applied a stream, as a set of records (by `ixfr_key`).
use coredns_ez.Prelude.{
  ◌≡◌, refl, ◌∙◌, Bool, true, false, not, ◌⊎◌, List, [], ◌∷◌, ◌++◌, Option, some, none, ok, arith,
  ◌==◌, nat_tests, text_tests, eq_iff, All, if◌then◌else◌, ◌&&◌, ◌||◌, String,
}
use coredns_ez.Dns.{Header, Soa, Rr, soa, other, is_soa, Dns, soa_of}
use coredns_ez.Dns.Serial.{less}
use coredns_ez.JournalText.{Increment}
use coredns_ez.Journal.{ixfr_key, have_key, diff_missing, increment_of, serial_of, delta_stream}
use coredns_ez.Journal.Diff.{apply_delta-increment_of}
use coredns_ez.Journal.Commit.{increment_of-serials}
use coredns_ez.Secondary.Xfr.{
  use_up, remove_rrs, replace_incs, replace_from, any_soa, replace_soa, apply_increments,
  parse_ixfr,
}
use coredns_ez.Secondary.Xfr.Stream.{NoSoa, collapse, less-ne, parse-delta_stream}

replace_from-soa_of :
    (h : Header) (s : Soa) (rrs : List Rr)
    → any_soa rrs ≡ true
    → soa_of (replace_from false (h, s) rrs) ≡ some (h, s)
unfolding replace_from any_soa soa_of
replace_from-soa_of h s [] e = cc
replace_from-soa_of h s (soa _ _ ∷ rrs) e = refl
replace_from-soa_of h s (other _ _ ∷ rrs) e = replace_from-soa_of h s rrs e

-- The zone's SOA afterwards is the one of the transfer.
pub replace_soa-soa_of :
    (h : Header) (s : Soa) (rrs : List Rr) → soa_of (replace_soa rrs (h, s)) ≡ some (h, s)
unfolding replace_soa soa_of
replace_soa-soa_of h s rrs = ground (arith, replace_from-soa_of h s rrs)

module _ ⦃dns : Dns⦄ where
  pub have_key-append :
      (k : String) (xs ys : List Rr) → have_key k (xs ++ ys) ≡ (have_key k xs || have_key k ys)
  unfolding have_key
  have_key-append k [] ys = refl
  have_key-append k (soa h s ∷ xs) ys = have_key-append k xs ys
  have_key-append k (other h d ∷ xs) ys = ground (arith, have_key-append k xs ys)

  have_key-replace_from :
      (k : String) (b : Bool) (c : Header × Soa) (rrs : List Rr)
      → have_key k (replace_from b c rrs) ≡ have_key k rrs
  unfolding replace_from have_key
  have_key-replace_from k true c [] = refl
  have_key-replace_from k false c [] = refl
  have_key-replace_from k true c (soa h s ∷ rrs) = have_key-replace_from k true c rrs
  have_key-replace_from k false c (soa h s ∷ rrs) = have_key-replace_from k true c rrs
  have_key-replace_from k true c (other h d ∷ rrs) =
      ground (arith, have_key-replace_from k true c rrs)
  have_key-replace_from k false c (other h d ∷ rrs) =
      ground (arith, have_key-replace_from k false c rrs)

  pub have_key-replace_soa :
      (k : String) (c : Header × Soa) (rrs : List Rr)
      → have_key k (replace_soa rrs c) ≡ have_key k rrs
  unfolding replace_soa have_key
  have_key-replace_soa k c rrs = ground (arith, have_key-replace_from k false c rrs)

  -- Within one list the keys differ.
  abbrev pub Distinct : List Rr → Type 0
  Distinct [] = Unit
  Distinct (x ∷ xs) = ((is_soa x ≡ true) ⊎ (have_key (ixfr_key x) xs ≡ false)) × Distinct xs

  All-diff_missing {ℓ} : (P : Rr → Type ℓ) (a b : List Rr) → All P a → All P (diff_missing a b)
  unfolding diff_missing
  All-diff_missing P [] b h = h
  All-diff_missing P (rr ∷ a) b h =
      pick (All-diff_missing P a b h.1) (is_soa rr) (have_key (ixfr_key rr) b)
    where
      pick :
          All P (diff_missing a b)
          → (s k : Bool)
          → All P (
              if s then diff_missing a b else if k then diff_missing a b else rr ∷ diff_missing a b)
      pick rest true k = rest
      pick rest false true = rest
      pick rest false false = (h.0, rest)

  increment_of-records :
      (old new : List Rr) (i : Increment)
      → increment_of old new ≡ ok i
      → (i.deleted ≡ diff_missing old new) × (i.added ≡ diff_missing new old)
  unfolding increment_of
  increment_of-records old new i h = ground arith

  NoSoa-diff_missing : (a b : List Rr) → NoSoa (diff_missing a b)
  unfolding diff_missing is_soa
  NoSoa-diff_missing [] b = tt
  NoSoa-diff_missing (soa h s ∷ a) b = NoSoa-diff_missing a b
  NoSoa-diff_missing (other h d ∷ a) b =
      pick (NoSoa-diff_missing a b) (have_key (ixfr_key (other h d)) b)
    where
      pick :
          NoSoa (diff_missing a b)
          → (k : Bool) → NoSoa (if k then diff_missing a b else other h d ∷ diff_missing a b)
      pick rest true = rest
      pick rest false = (refl, rest)

module _ ⦃dns : Dns⦄ where
  parses_one :
      (old new : List Rr) (h : Header) (s : Soa) (i : Increment)
      → soa_of new ≡ some (h, s)
      → less (serial_of old) s.serial ≡ true
      → increment_of old new ≡ ok i
      → parse_ixfr (soa h s ∷ (delta_stream (h, s) (i ∷ []) ++ soa h s ∷ [])) ≡ ok (i ∷ [])
  unfolding collapse
  parses_one old new h s i e newer d =
      let (deleted, added) = increment_of-records old new i d in
      let (was, is) = increment_of-serials old new i d in
      let e' : i.new_serial ≡ s.serial = is ∙ (unfold serial_of in ground arith) in
      let newer' : less i.old_serial s.serial ≡ true = rw was newer in
      parse-delta_stream h s i []
        (
          less-ne i.old_serial s.serial newer',
          e',
          rw deleted (NoSoa-diff_missing old new),
          rw added (NoSoa-diff_missing new old),
        )
        newer'
      ∙ cc e'

-- `alike`: on the records of `P`, dns.IsDuplicate, which ignores TTLs, tells apart what the keys
-- tell apart.
module _ ⦃dns : Dns⦄ (P : Rr → Type 0)
    (alike : (x d : Rr)
      → P x
      → P d
      → is_soa d ≡ false
      → dns.is_duplicate x d ≡ (if is_soa x then false else ixfr_key x == ixfr_key d)) where
  use_up-none :
      (x : Rr) (dels : List Rr)
      → P x
      → All P dels
      → NoSoa dels
      → is_soa x ≡ false
      → use_up x dels ≡ none
      → have_key (ixfr_key x) dels ≡ false
  unfolding use_up have_key
  use_up-none x [] px pd n s h = refl
  use_up-none x (d ∷ dels) px pd n s h = ground (
    arith,
    alike x d px pd.0 n.0,
    use_up-none x dels px pd.1 n.1 s,
    eq_iff (ixfr_key x) (ixfr_key d),
    eq_iff (ixfr_key d) (ixfr_key x),
  )

  -- What is left of the deletions once `x` has used one up.
  record Used (x : Rr) (dels dels' : List Rr) : Type 0 where
    left : All P dels'
    no_soa : NoSoa dels'
    plain : is_soa x ≡ false
    found : have_key (ixfr_key x) dels ≡ true
    others : (k : String) → (ixfr_key x == k) ≡ false → have_key k dels' ≡ have_key k dels

  use_up-Used :
      (x : Rr) (dels dels' : List Rr)
      → P x
      → All P dels
      → NoSoa dels
      → use_up x dels ≡ some dels'
      → Used x dels dels'
  unfolding use_up have_key
  use_up-Used x [] dels' px pd n h = cc
  use_up-Used x (d ∷ dels) dels' px pd n h =
      split (λ ds q. use_up-Used x dels ds px pd.1 n.1 q) (dns.is_duplicate x d) refl
        (use_up x dels) refl
    where
      same : dns.is_duplicate x d ≡ (if is_soa x then false else ixfr_key x == ixfr_key d)
      same = alike x d px pd.0 n.0

      split :
          ((ds : List Rr) → use_up x dels ≡ some ds → Used x dels ds)
          → (b : Bool) → dns.is_duplicate x d ≡ b
          → (r : Option (List Rr)) → use_up x dels ≡ r
          → Used x (d ∷ dels) dels'
      split ih true p r q =
          let e : dels' ≡ dels = ground arith in
          rw e (record {
            left = pd.1;
            no_soa = n.1;
            plain = ground (arith, same);
            found = ground (
              arith,
              same,
              n.0,
              eq_iff (ixfr_key x) (ixfr_key d),
              eq_iff (ixfr_key d) (ixfr_key x),
            );
            others = λ k ne. ground (
              arith,
              same,
              eq_iff (ixfr_key x) (ixfr_key d),
              eq_iff (ixfr_key x) k,
              eq_iff (ixfr_key d) k,
            );
          })
      split ih false p none q = absurd (ground arith)
      split ih false p (some ds) q =
          let u = ih ds q in
          let e : dels' ≡ d ∷ ds = ground arith in
          rw e (record {
            left = (pd.0, u.left);
            no_soa = (n.0, u.no_soa);
            plain = u.plain;
            found = ground (arith, u.found);
            others = λ k ne. ground (arith, u.others k ne);
          })

  -- Removal takes away exactly the records whose keys are deleted.
  pub have_key-remove_rrs :
      (k : String) (xs dels : List Rr)
      → All P xs
      → All P dels
      → NoSoa dels
      → Distinct xs
      → have_key k (remove_rrs xs dels) ≡ (have_key k xs && not (have_key k dels))
  unfolding remove_rrs have_key
  have_key-remove_rrs k [] dels px pd n distinct = refl
  have_key-remove_rrs k (x ∷ xs) dels px pd n distinct =
      split (λ ds a b. have_key-remove_rrs k xs ds px.1 a b distinct.1) (use_up x dels) refl
    where
      split :
          ((ds : List Rr)
            → All P ds
            → NoSoa ds
            → have_key k (remove_rrs xs ds) ≡ (have_key k xs && not (have_key k ds)))
          → (r : Option (List Rr)) → use_up x dels ≡ r
          → have_key k (remove_rrs (x ∷ xs) dels) ≡ (have_key k (x ∷ xs) && not (have_key k dels))
      split ih none q =
          ground (arith, ih dels pd n, eq_iff (ixfr_key x) k, use_up-none x dels px.0 pd n)
      split ih (some ds) q =
          let u = use_up-Used x dels ds px.0 pd n q in
          ground (
            arith,
            ih ds u.left u.no_soa,
            eq_iff (ixfr_key x) k,
            u.plain,
            u.found,
            u.others k,
            distinct.0,
          )

  -- If the secondary holds the old generation, the records afterwards are those of the new one.
  have_key-apply_one :
      (current old new : List Rr) (c : Header × Soa) (i : Increment) (k : String)
      → All P current
      → All P old
      → Distinct current
      → ((x : String) → have_key x current ≡ have_key x old)
      → increment_of old new ≡ ok i
      → have_key k (apply_increments current (i ∷ []) c) ≡ have_key k new
  unfolding apply_increments replace_incs
  have_key-apply_one current old new c i k pc po distinct same d =
      let (deleted, added) = increment_of-records old new i d in
      let gone =
        have_key-remove_rrs k current i.deleted pc (rw deleted (All-diff_missing P old new po))
          (rw deleted (NoSoa-diff_missing old new)) distinct in
      have_key-replace_soa k c (remove_rrs current i.deleted ++ i.added)
      ∙ have_key-append k (remove_rrs current i.deleted) i.added
      ∙ rw (gone, same k) (apply_delta-increment_of old new i k d)

  -- The secondary of a primary that made one commit: if dns.IsDuplicate tells apart on the records
  -- what the keys tell apart, the secondary holds the old generation without repeated records, and
  -- the new serial is newer, then it parses the answer to that one increment, and ends with the
  -- records and the SOA of the new generation.
  pub follows_one :
      (current old new : List Rr) (h : Header) (s : Soa) (i : Increment) (k : String)
      → All P current
      → All P old
      → Distinct current
      → ((x : String) → have_key x current ≡ have_key x old)
      → soa_of new ≡ some (h, s)
      → less (serial_of old) s.serial ≡ true
      → increment_of old new ≡ ok i
      → (parse_ixfr (soa h s ∷ (delta_stream (h, s) (i ∷ []) ++ soa h s ∷ [])) ≡ ok (i ∷ []))
        × (have_key k (apply_increments current (i ∷ []) (h, s)) ≡ have_key k new)
        × (soa_of (apply_increments current (i ∷ []) (h, s)) ≡ some (h, s))
  unfolding apply_increments
  follows_one current old new h s i k pc po distinct same e newer d = (
    parses_one old new h s i e newer d,
    have_key-apply_one current old new (h, s) i k pc po distinct same d,
    replace_soa-soa_of h s (replace_incs current (i ∷ [])),
  )
