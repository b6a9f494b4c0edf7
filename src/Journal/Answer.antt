-- ===== src/Journal/Answer.antt =====
-- What a client obtains from the streams that answer builds.
use coredns_ez.Prelude.{
  ℕ, ◌<◌, ◌≡◌, ◌≢◌, refl, ap, Bool, true, false, not, inl, inr, List, [], ◌∷◌, ◌++◌, arith, keep,
  Option, some, none, ◌==◌, nat_tests, Bool-cases, String,
}
use mathlib.Core.Path.{subst}
use coredns_ez.Dns.{Header, Soa, Rr, soa, other, is_soa, Dns, soa_of}
use coredns_ez.Dns.Serial.{
  u32_mod, serial_greater, serial_newer-serial_greater, serial_greater-asym,
}
use coredns_ez.JournalText.{Increment}
use coredns_ez.Journal.{
  Journal, ixfr, axfr, uptodate, serial_of, have_key, axfr_rrs, from_serial, delta_stream,
  ixfr_from, answer,
}
use coredns_ez.Journal.Diff.{replay}
use coredns_ez.Journal.Commit.{Tracks, now, step, increment_of-serials, replay-Tracks}

module _ ⦃dns : Dns⦄ where
  -- The increments from a serial on start at a generation with that serial, which those before them
  -- lead to.
  from_serial-Tracks :
      (serial : ℕ) {incs : List Increment} {old new : List Rr} (i : Increment) (is : List Increment)
      → Tracks incs old new
      → from_serial serial incs ≡ i ∷ is
      → (g : List Rr) × (earlier : List Increment) × (serial_of g ≡ serial)
        × (incs ≡ earlier ++ i ∷ is)
        × Tracks earlier old g
        × Tracks (i ∷ is) g new
  unfolding from_serial
  from_serial-Tracks serial j js (now g) h = absurd (ground arith)
  from_serial-Tracks serial j js (step {i} {is} old next {new} e t) h =
      elim (Bool-cases (i.old_serial == serial)) [
        | inl p ↦ (
          old,
          [],
          ground (arith, increment_of-serials old next i e),
          first p,
          now old,
          subst (λ l. Tracks l old new) (first p) (step old next e t),
        )
        | inr p ↦
            let (g, earlier, starts, whole, reached, onward) =
              from_serial-Tracks serial j js t (ground arith) in
            (g, i ∷ earlier, starts, ap (i ∷◌) whole, step old next e reached, onward)
      ]
    where
      first : (i.old_serial == serial) ≡ true → (i ∷ is) ≡ (j ∷ js)
      first p = ground arith

  -- What an IXFR answer consists of: the last increments of the journal, from the generation `from`
  -- on that the earlier ones lead to from the journal's first, `g`.
  pub record Delta (j : Journal) (g : List Rr) (serial : ℕ) (stream : List Rr) : Type 0 where
    pub earlier : List Increment
    pub incs : List Increment
    pub head : Header
    pub apex : Soa
    pub from : List Rr
    pub current : soa_of j.current ≡ some (head, apex)
    pub framed : stream ≡ soa head apex ∷ (delta_stream (head, apex) incs ++ soa head apex ∷ [])
    pub whole : j.incs ≡ earlier ++ incs
    pub reached : Tracks earlier g from
    pub starts : serial_of from ≡ serial
    pub onward : Tracks incs from j.current
    pub replays : (k : String) → replay incs (λ x. have_key x from) k ≡ have_key k j.current

  ixfr_from-Delta :
      (j : Journal) (serial : ℕ) (stream : List Rr) (g : List Rr)
      → Tracks j.incs g j.current
      → ixfr_from j serial ≡ some stream
      → Delta j g serial stream
  unfolding ixfr_from
  ixfr_from-Delta j serial stream g t h = deltas (from_serial serial j.incs) refl
    where
      apex :
          (i : Increment) (is : List Increment)
          → from_serial serial j.incs ≡ i ∷ is
          → (o : Option (Header × Soa)) → soa_of j.current ≡ o
          → Delta j g serial stream
      apex i is q none p = absurd (ground arith)
      apex i is q (some (head, s)) p =
          let (from, earlier, starts, whole, reached, u) = from_serial-Tracks serial i is t q in
          record {
            earlier = earlier;
            incs = i ∷ is;
            head = head;
            apex = s;
            from = from;
            current = p;
            framed = ground arith;
            whole = whole;
            reached = reached;
            starts = starts;
            onward = u;
            replays = λ k. replay-Tracks k u;
          }

      deltas : (l : List Increment) → from_serial serial j.incs ≡ l → Delta j g serial stream
      deltas [] q = absurd (ground arith)
      deltas (i ∷ is) q = apex i is q (soa_of j.current) refl

  -- If the increments lead from some generation to the served one, then an IXFR answer is framed by
  -- the served SOA and holds the last increments of the journal from one on: those before it lead
  -- from that first generation to one with the serial asked for, and those sent lead from there to
  -- the served one, whose records they make of that generation's.
  pub answer-Delta :
      (j : Journal) (serial : ℕ) (stream : List Rr) (g : List Rr)
      → Tracks j.incs g j.current
      → answer j serial ≡ (ixfr, stream)
      → Delta j g serial stream
  unfolding answer
  answer-Delta j serial stream g t h = ixfr_from-Delta j serial stream g t (ground arith)

serial_greater-same : (a : ℕ) → serial_greater a a ≡ false
unfolding serial_greater
serial_greater-same a = ground arith

-- A client is told that it is up to date only if the served serial is no newer than its own.
pub answer_uptodate :
    (j : Journal) (serial : ℕ) (rrs : List Rr)
    → serial < u32_mod
    → serial_of j.current < u32_mod
    → answer j serial ≡ (uptodate, rrs)
    → (serial_greater (serial_of j.current) serial ≡ false) × (serial ≢ 0)
unfolding answer
answer_uptodate j serial rrs b c h = ground (
  arith,
  serial_greater-same serial,
  serial_newer-serial_greater serial (serial_of j.current) b c,
  serial_greater-asym serial (serial_of j.current) b c,
)

has_soa : List Rr → Bool
has_soa rrs = elim (soa_of rrs) [ none ↦ false | some _ ↦ true ]

without_soas : List Rr → List Rr
without_soas = keep (λ rr. not (is_soa rr))

without_soas-soa_of : (rrs : List Rr) → soa_of (without_soas rrs) ≡ none
unfolding without_soas soa_of is_soa
without_soas-soa_of [] = refl
without_soas-soa_of (soa h s ∷ rrs) = without_soas-soa_of rrs
without_soas-soa_of (other h d ∷ rrs) = without_soas-soa_of rrs

module _ ⦃dns : Dns⦄ where
  have_key-without_soas :
      (k : String) (rrs : List Rr) → have_key k (without_soas rrs) ≡ have_key k rrs
  unfolding without_soas have_key
  have_key-without_soas k [] = refl
  have_key-without_soas k (soa h s ∷ rrs) = have_key-without_soas k rrs
  have_key-without_soas k (other h d ∷ rrs) = ground (arith, have_key-without_soas k rrs)

  -- A whole-zone answer for a zone with an SOA is that SOA, a body without SOAs that has exactly
  -- the served records, and the SOA again.
  pub answer-whole :
      (j : Journal) (serial : ℕ) (rrs : List Rr) (h : Header) (s : Soa)
      → soa_of j.current ≡ some (h, s)
      → answer j serial ≡ (axfr, rrs)
      → (body : List Rr) × (rrs ≡ soa h s ∷ (body ++ soa h s ∷ []))
        × (soa_of body ≡ none)
        × ((k : String) → have_key k body ≡ have_key k j.current)
  unfolding answer axfr_rrs
  answer-whole j serial rrs h s e a = (
    without_soas j.current,
    unfold without_soas in ground arith,
    without_soas-soa_of j.current,
    λ k. have_key-without_soas k j.current,
  )
