-- ===== src/Journal/Commit.antt =====
-- The invariant of a journal, and what a commit keeps of it.
use coredns_ez.Prelude.{
  ℕ, zero, suc, ◌-◌, ◌≤◌, ◌≡◌, refl, ap, ◌∙◌, Bool, true, ◌⊎◌, inl, inr, List, [], ◌∷◌, ◌++◌, arith,
  length, length-drop, drop, ltb, Option, some, none, nat_tests, Bool-cases, String, Result, ok,
  err,
}
use mathlib.Core.Path.{fun_ext}
use coredns_ez.Dns.{Rr, Dns}
use coredns_ez.JournalText.{Increment}
use coredns_ez.Journal.{
  Journal, JournalBackend, JournalError, chained, ends_at, serial_of, have_key, increment_of,
  truncate, persist, commit,
}
use coredns_ez.Journal.Reconcile.{ends_at-append}
use coredns_ez.Journal.Diff.{replay, apply_delta-increment_of}

-- The increments chain and lead up to the served generation.
pub record IsValid (j : Journal) : Type 0 where
  pub chain : chained j.incs ≡ true
  pub reaches : (j.incs ≡ []) ⊎ (ends_at (serial_of j.current) j.incs ≡ true)

-- The increments are those of a run of generations, the last of which is `new`.
pub data Tracks ⦃dns : Dns⦄ : List Increment → List Rr → List Rr → Type 0 where
  now : (g : List Rr) → Tracks [] g g
  step :
      {i : Increment} {is : List Increment} (old next : List Rr) {new : List Rr}
      → increment_of old next ≡ ok i
      → Tracks is next new
      → Tracks (i ∷ is) old new

module _ ⦃dns : Dns⦄ where
  -- A client that holds the first generation and replays the increments holds the last one.
  pub replay-Tracks :
      {incs : List Increment} {old new : List Rr} (k : String)
      → Tracks incs old new
      → replay incs (λ x. have_key x old) k ≡ have_key k new
  replay-Tracks k (now g) = refl
  replay-Tracks k (step {i} {is} old next e t) =
      ap (λ (zone : String → Bool). replay is zone k)
        (fun_ext (λ x. apply_delta-increment_of old next i x e))
      ∙ replay-Tracks k t

  Tracks-append :
      {incs : List Increment} {old mid new : List Rr} {i : Increment}
      → Tracks incs old mid
      → increment_of mid new ≡ ok i
      → Tracks (incs ++ i ∷ []) old new
  Tracks-append {new = new} (now g) e = step g new e (now new)
  Tracks-append (step old next h t) e = step old next h (Tracks-append t e)

  Tracks-drop :
      (n : ℕ) {incs : List Increment} {old new : List Rr}
      → Tracks incs old new
      → (g : List Rr) × Tracks (drop n incs) g new
  Tracks-drop zero {old = old} t = (old, t)
  Tracks-drop (suc n) (now g) = (g, now g)
  Tracks-drop (suc n) (step old next e t) = Tracks-drop n t

  pub increment_of-serials :
      (old new : List Rr) (i : Increment)
      → increment_of old new ≡ ok i
      → (i.old_serial ≡ serial_of old) × (i.new_serial ≡ serial_of new)
  unfolding increment_of serial_of
  increment_of-serials old new i h = ground arith

chained-append :
    (incs : List Increment) (i : Increment) (serial : ℕ)
    → chained incs ≡ true
    → (incs ≡ []) ⊎ (ends_at serial incs ≡ true)
    → i.old_serial ≡ serial
    → chained (incs ++ i ∷ []) ≡ true
unfolding chained ends_at
chained-append [] i serial c e h = refl
chained-append (j ∷ []) i serial c e h = ground arith
chained-append (j ∷ k ∷ incs) i serial c e h = ground (arith, chained-append (k ∷ incs) i serial)

chained-drop : (n : ℕ) (incs : List Increment) → chained incs ≡ true → chained (drop n incs) ≡ true
unfolding chained
chained-drop zero incs h = h
chained-drop (suc n) [] h = h
chained-drop (suc zero) (i ∷ []) h = refl
chained-drop (suc (suc n)) (i ∷ []) h = refl
chained-drop (suc n) (i ∷ j ∷ incs) h = chained-drop n (j ∷ incs) (ground arith)

ends_at-drop :
    (n serial : ℕ) (incs : List Increment)
    → ends_at serial incs ≡ true
    → (drop n incs ≡ []) ⊎ (ends_at serial (drop n incs) ≡ true)
unfolding ends_at
ends_at-drop zero serial incs h = inr h
ends_at-drop (suc n) serial [] h = inl refl
ends_at-drop (suc zero) serial (i ∷ []) h = inl refl
ends_at-drop (suc (suc n)) serial (i ∷ []) h = inl refl
ends_at-drop (suc n) serial (i ∷ j ∷ incs) h = ends_at-drop n serial (j ∷ incs) h

-- A truncated history is a suffix, and fits.
truncate_lem :
    (history : ℕ) (incs : List Increment)
    → (n : ℕ) × (truncate history incs ≡ drop n incs) × (length (truncate history incs) ≤ history)
unfolding truncate
truncate_lem history incs = elim (Bool-cases (ltb history (length incs))) [
  | inl e ↦
      (length incs - history, rw e, rw e (omega (arith, length-drop (length incs - history) incs)))
  | inr e ↦ (0, rw e, ground arith)
]

module _ ⦃dns : Dns⦄ {S : Type 0} where
  -- What a successful commit has done.
  pub record Committed (backend : Option (JournalBackend S)) (old new : List Rr) (j : Journal)
      (s : S) (j' : Journal) (s' : S) : Type 0 where
    pub inc : Increment
    pub diff : increment_of old new ≡ ok inc
    pub result : j' ≡ record j { incs = truncate j.history (j.incs ++ inc ∷ []); current = new }
    pub saved : persist backend j (serial_of new) j'.incs s ≡ some s'

  -- A commit that succeeds has recorded the difference of the two generations behind the history,
  -- cut the history to its limit, and stored that very history before it changed the journal.
  pub commit-Committed :
      (backend : Option (JournalBackend S)) (old new : List Rr) (j : Journal) (s : S) (j' : Journal)
      (s' : S)
      → commit backend old new (j, s) ≡ ok (j', s')
      → Committed backend old new j s j' s'
  unfolding commit
  commit-Committed backend old new j s j' s' h = split (increment_of old new) refl
    where
      stored :
          (i : Increment)
          → increment_of old new ≡ ok i
          → (r : Option S)
          → persist backend j i.new_serial (truncate j.history (j.incs ++ i ∷ [])) s ≡ r
          → Committed backend old new j s j' s'
      stored i q none p = absurd (ground arith)
      stored i q (some t) p = record {
        inc = i;
        diff = q;
        result = ground arith;
        saved = ground (arith, increment_of-serials old new i q);
      }

      split :
          (r : Result JournalError Increment)
          → increment_of old new ≡ r
          → Committed backend old new j s j' s'
      split (err e) q = absurd (ground arith)
      split (ok i) q =
          stored i q (persist backend j i.new_serial (truncate j.history (j.incs ++ i ∷ [])) s) refl

  -- A commit from the generation that the journal serves keeps the increments chained and leading
  -- to the served serial, stays within the history limit, and makes the new generation the current
  -- one.
  pub commit-IsValid :
      (backend : Option (JournalBackend S)) (old new : List Rr) (j : Journal) (s : S) (j' : Journal)
      (s' : S)
      → IsValid j
      → serial_of old ≡ serial_of j.current
      → commit backend old new (j, s) ≡ ok (j', s')
      → IsValid j' × (length j'.incs ≤ j'.history) × (j'.current ≡ new)
  commit-IsValid backend old new j s j' s' v e h =
      let c = commit-Committed backend old new j s j' s' h in
      let (n, cut, fits) = truncate_lem j.history (j.incs ++ c.inc ∷ []) in
      let (was, is) = increment_of-serials old new c.inc c.diff in
      let chain = chained-append j.incs c.inc (serial_of j.current) v.chain v.reaches (was ∙ e) in
      let end =
        ends_at-append (serial_of new) j.incs (c.inc ∷ []) (unfold ends_at in ground arith) in
      rw c.result (
        record {
          chain = rw cut (chained-drop n (j.incs ++ c.inc ∷ []) chain);
          reaches = rw cut (ends_at-drop n (serial_of new) (j.incs ++ c.inc ∷ []) end);
        },
        fits,
        refl,
      )

  -- If the increments lead from some earlier generation to the served one, then after a commit from
  -- the served generation they lead from some earlier generation to the new one.
  pub commit-Tracks :
      (backend : Option (JournalBackend S)) (new : List Rr) (j : Journal) (s : S) (j' : Journal)
      (s' : S) (g : List Rr)
      → Tracks j.incs g j.current
      → commit backend j.current new (j, s) ≡ ok (j', s')
      → (g' : List Rr) × Tracks j'.incs g' j'.current
  commit-Tracks backend new j s j' s' g t h =
      let c = commit-Committed backend j.current new j s j' s' h in
      let (n, cut, fits) = truncate_lem j.history (j.incs ++ c.inc ∷ []) in
      rw (c.result, cut) (Tracks-drop n (Tracks-append t c.diff))
