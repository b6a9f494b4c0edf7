-- ===== src/Journal/Reconcile.antt =====
-- reconcile (ixfr/journal.go): the increments of a stored journal that fit the zone.
use coredns_ez.Prelude.{
  ℕ, ◌≤◌, ◌≡◌, refl, Bool, true, false, ◌⊎◌, inl, inr, List, [], ◌∷◌, ◌++◌, arith, length,
  length-append, ◌==◌, nat_tests, All, if◌then◌else◌,
}
use coredns_ez.JournalText.{Increment}
use coredns_ez.Journal.{chained, upto_serial, chained_suffix, reconcile, ends_at}

chained_suffix-chained : (incs : List Increment) → chained (chained_suffix incs) ≡ true
unfolding chained_suffix
chained_suffix-chained [] = unfold chained in refl
chained_suffix-chained (i ∷ rest) = ground (arith, chained_suffix-chained rest)

-- A chain at the end of the list is no longer than the suffix that is kept.
length-chained_suffix :
    (pre body : List Increment)
    → chained body ≡ true
    → length body ≤ length (chained_suffix (pre ++ body))
unfolding chained_suffix
length-chained_suffix [] [] h = omega arith
length-chained_suffix [] (i ∷ body) h = rw h (omega arith)
length-chained_suffix (i ∷ pre) body h =
    ground (arith, length-chained_suffix pre body h, length-append pre body)

abbrev pub StillAhead : ℕ → List Increment → Type 0
StillAhead current = All (λ i. (i.new_serial == current) ≡ false)

upto_serial-none :
    (current : ℕ) (post : List Increment) → StillAhead current post → upto_serial current post ≡ []
unfolding upto_serial
upto_serial-none current [] h = refl
upto_serial-none current (i ∷ post) h = ground (arith, upto_serial-none current post h.1)

-- Cutting at the last increment that reaches the serial keeps a body that ends there.
pub upto_serial-append :
    (current : ℕ) (body post : List Increment)
    → ends_at current body ≡ true
    → StillAhead current post
    → upto_serial current (body ++ post) ≡ body
unfolding ends_at upto_serial
upto_serial-append current [] post h ahead = cc
upto_serial-append current (i ∷ []) post h ahead =
    ground (arith, upto_serial-none current post ahead)
upto_serial-append current (i ∷ j ∷ body) post h ahead =
    ground (arith, upto_serial-append current (j ∷ body) post h ahead)

pub ends_at-append :
    (current : ℕ) (pre body : List Increment)
    → ends_at current body ≡ true
    → ends_at current (pre ++ body) ≡ true
unfolding ends_at
ends_at-append current [] body h = h
ends_at-append current (i ∷ []) [] h = cc
ends_at-append current (i ∷ []) (j ∷ body) h = h
ends_at-append current (i ∷ j ∷ pre) body h = ends_at-append current (j ∷ pre) body h

upto_serial-ends_at :
    (current : ℕ) (incs : List Increment)
    → (upto_serial current incs ≡ []) ⊎ (ends_at current (upto_serial current incs) ≡ true)
unfolding ends_at upto_serial
upto_serial-ends_at current [] = inl refl
upto_serial-ends_at current (i ∷ rest) = ground (arith, upto_serial-ends_at current rest)

chained_suffix-ends_at :
    (current : ℕ) (incs : List Increment)
    → ends_at current incs ≡ true
    → (chained_suffix incs ≡ []) ⊎ (ends_at current (chained_suffix incs) ≡ true)
unfolding chained_suffix ends_at
chained_suffix-ends_at current [] h = inl refl
chained_suffix-ends_at current (i ∷ []) h = unfold chained in inr h
chained_suffix-ends_at current (i ∷ j ∷ rest) h =
    cut (chained (i ∷ j ∷ rest)) (chained_suffix-ends_at current (j ∷ rest) h)
  where
    cut :
        (b : Bool)
        → (chained_suffix (j ∷ rest) ≡ []) ⊎ (ends_at current (chained_suffix (j ∷ rest)) ≡ true)
        → let kept = if b then i ∷ j ∷ rest else chained_suffix (j ∷ rest) in
          (kept ≡ []) ⊎ (ends_at current kept ≡ true)
    cut true _ = inr h
    cut false ih = ih

-- What is kept is a chain, and where anything is kept its last serial is the zone's.
pub reconcile_sound :
    (incs : List Increment) (current : ℕ)
    → (chained (reconcile incs current) ≡ true)
      × ((reconcile incs current ≡ []) ⊎ (ends_at current (reconcile incs current) ≡ true))
unfolding reconcile
reconcile_sound incs current = (
  chained_suffix-chained cut,
  elim (upto_serial-ends_at current incs) [
    | inl e ↦ inl (rw e (unfold chained_suffix in refl))
    | inr e ↦ chained_suffix-ends_at current cut e
  ],
)
  where
    cut : List Increment
    cut = upto_serial current incs

-- Every run of stored increments that chains, reaches the zone's serial and is the last to do so
-- fits into what is kept.
pub reconcile_longest :
    (pre body post : List Increment) (current : ℕ)
    → chained body ≡ true
    → ends_at current body ≡ true
    → StillAhead current post
    → length body ≤ length (reconcile (pre ++ body ++ post) current)
unfolding reconcile
reconcile_longest pre body post current h e ahead =
    rw (upto_serial-append current (pre ++ body) post (ends_at-append current pre body e) ahead)
      (length-chained_suffix pre body h)
