-- ===== src/Update/Commit/Wire.antt =====
-- What an UPDATE over the wire must pass before anything changes.
use coredns_ez.Prelude.{
  ◌≡◌, ◌≢◌, refl, ◌∙◌, String, ◌⊎◌, inl, inr, true, false, Option, none, some, text_tests, arith,
}
use coredns_ez.Dns.{Rcode, success, format_error, refused, not_auth, Dns, canonical}
use coredns_ez.Update.Prereqs.{check_prereqs}
use coredns_ez.Update.Prescan.{prescan}
use coredns_ez.Update.Commit.{
  UpdatePersist, Config, Ending, returned, panicked, Writer, Request, tsig_verified, zone_section,
  update_sections, serve_update, commit_locked,
}
use text.Mathlib.TextEquality.{eq_iff}

module _ ⦃dns : Dns⦄ where
  -- a request that is verified, is for this zone, and whose sections pass
  pub record Admitted (d : UpdatePersist) (w : Writer) (r : Request) : Type 0 where
    pub section : String
    pub one_zone : zone_section r ≡ some section
    pub own_zone : canonical section ≡ d.zone
    pub verified : tsig_verified w r ≡ true
    pub prereqs : check_prereqs d.rrs d.zone r.answer ≡ success
    pub prescanned : prescan d.zone d.mutable true r.ns ≡ success

  abbrev PassesSections : UpdatePersist → Request → Type 0
  PassesSections d r =
      (check_prereqs d.rrs d.zone r.answer ≡ success)
      × (prescan d.zone d.mutable true r.ns ≡ success)

module _ ⦃dns : Dns⦄ {S : Type 0} (c : Config S) where
  -- an error, with zone and store as they were
  abbrev pub Rejected : UpdatePersist → S → Ending Rcode × UpdatePersist × S → Type 0
  Rejected d s (ending, d', s') =
      (ending ≢ returned success) × (ending ≢ panicked) × (d' ≡ d) × (s' ≡ s)

  update_sections-passes :
      (d : UpdatePersist) (r : Request) (s : S)
      → (PassesSections d r × (update_sections c d r s ≡ commit_locked c d r.ns s))
        ⊎ Rejected d s (update_sections c d r s)
  unfolding update_sections
  update_sections-passes d r s = ground arith

  abbrev Opened : UpdatePersist → Writer → Request → S → Type 0
  Opened d w r s =
      (section : String) × (zone_section r ≡ some section)
      × (canonical section ≡ d.zone)
      × (tsig_verified w r ≡ true)
      × (serve_update c d w r s ≡ update_sections c d r s)

  opened :
      (d : UpdatePersist) (w : Writer) (r : Request) (s : S)
      → Opened d w r s ⊎ Rejected d s (serve_update c d w r s)
  unfolding serve_update
  opened d w r s = split (zone_section r) refl
    where
      named :
          (section : String)
          → zone_section r ≡ some section
          → Opened d w r s ⊎ Rejected d s (serve_update c d w r s)
      named section q = ground (arith, eq_iff (canonical section) d.zone, q)

      split :
          (o : Option String)
          → zone_section r ≡ o
          → Opened d w r s ⊎ Rejected d s (serve_update c d w r s)
      split none q = inr (ground (arith, q))
      split (some section) q = named section q

  -- An UPDATE whose sender is not verified by TSIG changes neither the zone nor the store, and is
  -- answered FORMERR, NOTAUTH or REFUSED.
  pub unverified_refused :
      (d : UpdatePersist) (w : Writer) (r : Request) (s : S)
      → tsig_verified w r ≡ false
      → ((serve_update c d w r s).1 ≡ d)
        × ((serve_update c d w r s).2 ≡ s)
        × (((serve_update c d w r s).0 ≡ returned format_error)
            ⊎ (((serve_update c d w r s).0 ≡ returned not_auth)
                ⊎ ((serve_update c d w r s).0 ≡ returned refused)))
  unfolding serve_update
  unverified_refused d w r s h = ground arith

  -- An UPDATE over the wire either is verified, names this zone, and passes prerequisites and
  -- prescan, and then it is the commit of its update section; or it is answered with an error, and
  -- zone and store are as they were.
  pub serve_update-Admitted :
      (d : UpdatePersist) (w : Writer) (r : Request) (s : S)
      → (Admitted d w r × (serve_update c d w r s ≡ commit_locked c d r.ns s))
        ⊎ Rejected d s (serve_update c d w r s)
  serve_update-Admitted d w r s = split (opened d w r s) (update_sections-passes d r s)
    where
      split :
          Opened d w r s ⊎ Rejected d s (serve_update c d w r s)
          → (PassesSections d r × (update_sections c d r s ≡ commit_locked c d r.ns s))
            ⊎ Rejected d s (update_sections c d r s)
          → (Admitted d w r × (serve_update c d w r s ≡ commit_locked c d r.ns s))
            ⊎ Rejected d s (serve_update c d w r s)
      split (inr out) h = inr out
      split (inl (section, one, own, verified, same)) (inl ((prereqs, prescanned), commits)) = inl (
        record {
          section = section;
          one_zone = one;
          own_zone = own;
          verified = verified;
          prereqs = prereqs;
          prescanned = prescanned;
        },
        same ∙ commits,
      )
      split (inl (section, one, own, verified, same)) (inr out) = inr (rw same out)
