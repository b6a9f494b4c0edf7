-- ===== src/Secondary/Xfr/Stream.antt =====
-- What parseIXFR makes of the stream that the journal of a primary sends (ixfr/journal.go).
use coredns_ez.Prelude.{
  ℕ, ◌≡◌, ◌∙◌, true, false, List, [], ◌∷◌, ◌++◌, ok, arith, append_assoc, append-nil, ◌==◌,
  nat_tests, All, last-append, init-append,
}
use coredns_ez.Dns.{Header, Soa, Rr, soa, other, is_soa}
use coredns_ez.Dns.Serial.{less}
use coredns_ez.JournalText.{Increment}
use coredns_ez.Journal.{delta_stream}
use coredns_ez.Secondary.Xfr.{
  Parser, Mode, outside, del, add, blank, scan_rrs, flush_mode, parse_body, parse_rest, parse_ixfr,
  finish,
}

-- The increment that the parser builds out of a whole stream: all that the increments before the
-- last one delete and add counts as deleted.
unfoldable pub collapse : Increment → List Increment → Increment
collapse i [] = i
collapse i (j ∷ is) =
    let rest = collapse j is in record rest { deleted = i.deleted ++ (i.added ++ rest.deleted) }

abbrev pub NoSoa : List Rr → Type 0
NoSoa = All (λ rr. is_soa rr ≡ false)

-- A history that leads to the serial of the envelope, and passes through others before.
abbrev pub LeadsTo : ℕ → Increment → List Increment → Type 0
LeadsTo envelope i [] =
    ((i.old_serial == envelope) ≡ false)
    × (i.new_serial ≡ envelope)
    × NoSoa i.deleted
    × NoSoa i.added
LeadsTo envelope i (j ∷ is) =
    ((i.old_serial == envelope) ≡ false)
    × ((i.new_serial == envelope) ≡ false)
    × NoSoa i.deleted
    × NoSoa i.added
    × LeadsTo envelope j is

module _ (envelope : ℕ) where
  scan_deleted :
      (rrs rest : List Rr) (incs : List Increment) (cur : Increment)
      → NoSoa rrs
      → scan_rrs envelope (rrs ++ rest) (record { mode = del; incs = incs; cur = cur })
        ≡ scan_rrs envelope rest
            (record { mode = del; incs = incs; cur = record cur { deleted = cur.deleted ++ rrs } })
  unfolding scan_rrs is_soa
  scan_deleted [] rest incs cur h = rw append-nil
  scan_deleted (soa _ _ ∷ rrs) rest incs cur h = cc (h.0)
  scan_deleted (other hd d ∷ rrs) rest incs cur h =
      scan_deleted rrs rest incs (record cur { deleted = cur.deleted ++ other hd d ∷ [] }) h.1
      ∙ rw append_assoc

  scan_added :
      (rrs : List Rr) (incs : List Increment) (cur : Increment)
      → NoSoa rrs
      → scan_rrs envelope rrs (record { mode = add; incs = incs; cur = cur })
        ≡ ok (record { mode = add; incs = incs; cur = record cur { added = cur.added ++ rrs } })
  unfolding scan_rrs is_soa
  scan_added [] incs cur h = rw append-nil
  scan_added (soa _ _ ∷ rrs) incs cur h = cc (h.0)
  scan_added (other hd d ∷ rrs) incs cur h =
      scan_added rrs incs (record cur { added = cur.added ++ other hd d ∷ [] }) h.1
      ∙ rw append_assoc

  -- the parser after a whole stream that it entered with deletions pending
  after : Increment → Increment → Parser
  after cur i = record {
    mode = add;
    incs = [];
    cur = record {
      old_serial = i.old_serial;
      new_serial = envelope;
      deleted = cur.deleted ++ i.deleted;
      added = cur.added ++ i.added;
    };
  }

  abbrev CanOpen : Mode → Type 0
  CanOpen outside = Unit {0}
  CanOpen del = Unit {0}
  CanOpen add = ⊥

  open_section :
      (c : Header × Soa) (m : Mode) (serial : ℕ) (rest : List Rr) (cur : Increment)
      → CanOpen m
      → (serial == envelope) ≡ false
      → scan_rrs envelope
          (soa c.0 (record c.1 { serial = serial }) ∷ rest)
          (record { mode = m; incs = []; cur = cur })
        ≡ scan_rrs envelope rest
            (record { mode = del; incs = []; cur = record cur { old_serial = serial } })
  unfolding scan_rrs
  open_section c outside serial rest cur o h = rw h
  open_section c del serial rest cur o h = rw h
  open_section c add serial rest cur o h = absurd o

  switch_section :
      (c : Header × Soa) (serial : ℕ) (rest : List Rr) (cur : Increment)
      → serial ≡ envelope
      → scan_rrs envelope
          (soa c.0 (record c.1 { serial = serial }) ∷ rest)
          (record { mode = del; incs = []; cur = cur })
        ≡ scan_rrs envelope rest
            (record { mode = add; incs = []; cur = record cur { new_serial = serial } })
  unfolding scan_rrs
  switch_section c serial rest cur h = ground arith

  scan_stream :
      (c : Header × Soa) (i : Increment) (is : List Increment) (m : Mode) (cur : Increment)
      → CanOpen m
      → LeadsTo envelope i is
      → scan_rrs envelope (delta_stream c (i ∷ is)) (record { mode = m; incs = []; cur = cur })
        ≡ ok (after cur (collapse i is))
  unfolding delta_stream collapse after
  scan_stream c i [] m cur o (old, new, d, a) =
      open_section c m i.old_serial _ cur o old
      ∙ scan_deleted i.deleted _ [] _ d
      ∙ switch_section c i.new_serial _ _ new
      ∙ rw append-nil (scan_added i.added [] _ a ∙ cc new)
  scan_stream c i (j ∷ is) m cur o (old, new, d, a, rest) =
      open_section c m i.old_serial _ cur o old
      ∙ scan_deleted i.deleted _ [] _ d
      ∙ open_section c del i.new_serial _ _ tt new
      ∙ scan_deleted i.added _ [] _ a
      ∙ scan_stream c j is del _ tt rest
      ∙ simp append_assoc

parse_framed :
    (h : Header) (s : Soa) (x : Rr) (xs : List Rr)
    → parse_ixfr (soa h s ∷ ((x ∷ xs) ++ soa h s ∷ [])) ≡ parse_body s.serial (x ∷ xs)
unfolding parse_ixfr parse_rest
parse_framed h s x xs =
    ground (arith, last-append (x ∷ xs) (soa h s), init-append (x ∷ xs) (soa h s))

pub less-ne : (a b : ℕ) → less a b ≡ true → (a == b) ≡ false
unfolding less
less-ne a b h = ground arith

parse_stream :
    (c : Header × Soa) (i : Increment) (is : List Increment)
    → LeadsTo c.1.serial i is
    → less (collapse i is).old_serial c.1.serial ≡ true
    → parse_body c.1.serial (delta_stream c (i ∷ is))
      ≡ ok (record (collapse i is) { new_serial = c.1.serial } ∷ [])
unfolding parse_body flush_mode finish after
parse_stream c i is leads newer =
    rw (scan_stream c.1.serial c i is outside blank tt leads)
      (ground (arith, less-ne (collapse i is).old_serial c.1.serial))

-- However many increments a primary sends, the secondary sees one: it lasts from the serial before
-- the last increment to the envelope's, adds what the last increment adds, and deletes all that the
-- increments delete and all that those before the last one add.
pub parse-delta_stream :
    (h : Header) (s : Soa) (i : Increment) (is : List Increment)
    → LeadsTo s.serial i is
    → less (collapse i is).old_serial s.serial ≡ true
    → parse_ixfr (soa h s ∷ (delta_stream (h, s) (i ∷ is) ++ soa h s ∷ []))
      ≡ ok (record (collapse i is) { new_serial = s.serial } ∷ [])
parse-delta_stream h s i is leads newer =
    unfold delta_stream in parse_framed h s _ _ ∙ parse_stream (h, s) i is leads newer
