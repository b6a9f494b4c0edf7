-- ===== src/Update/Commit/Serial.antt =====
-- The serial of a zone after a commit.
use coredns_ez.Prelude.{
  ◌≡◌, ◌<◌, ◌+◌, ◌%◌, ap, ◌∙◌, ◌⊎◌, inl, inr, true, false, none, some, List, [], ◌∷◌, All, arith,
}
use coredns_ez.Dns.{Header, Soa, Rr, soa, other, soa_of, success, Dns}
use coredns_ez.Dns.Serial.{u32_mod, serial_greater, bump-serial_greater}
use coredns_ez.Update.Zone.{bump_serial}
use coredns_ez.Update.Apply.{apply}
use coredns_ez.Update.Apply.Edits.{KeysTell, Standing}
use coredns_ez.Update.Apply.Apex.{AddsNoSoa, apply-soa_of}
use coredns_ez.Update.Commit.{UpdatePersist, Config, returned, commit_locked}
use coredns_ez.Update.Commit.Atomic.{Ends, commit_locked-Ends}

abbrev pub bumped : Soa → Soa
bumped t = record t { serial = (t.serial + 1) % u32_mod }

soa_of-bump_serial :
    (rrs : List Rr) (h : Header) (t : Soa)
    → soa_of rrs ≡ some (h, t)
    → soa_of (bump_serial rrs) ≡ some (h, bumped t)
unfolding soa_of bump_serial
soa_of-bump_serial [] h t e = ground (arith, e)
soa_of-bump_serial (soa g s ∷ rrs) h t e =
    ap (λ o. elim o [ none ↦ none | some (k, r) ↦ some (k, bumped r) ]) e
soa_of-bump_serial (other g d ∷ rrs) h t e = soa_of-bump_serial rrs h t e

module _ ⦃dns : Dns⦄ (tell : KeysTell) {S : Type 0} (c : Config S) where
  -- Let no two records of different names or types have the same text; let every SOA of the zone
  -- and of the updates be one of the apex, and the apex have an SOA, with a serial of 32 bits, and
  -- an NS record; and let the updates add no SOA. Where the commit then changes something and
  -- reports success, the zone has the SOA it had but for the serial, which is newer than before,
  -- wrap-around included.
  pub commit_locked-newer :
      (d : UpdatePersist) (updates : List Rr) (s : S) (h : Header) (t : Soa)
      → All (AddsNoSoa tell d.zone) updates
      → Standing d.zone d.rrs
      → soa_of d.rrs ≡ some (h, t)
      → t.serial < u32_mod
      → (apply d.zone d.rrs updates).1 ≡ true
      → (commit_locked c d updates s).0 ≡ returned success
      → (soa_of (commit_locked c d updates s).1.rrs ≡ some (h, bumped t))
        × (serial_greater (bumped t).serial t.serial ≡ true)
  commit_locked-newer d updates s h t a st cur small changed done =
      (split (commit_locked-Ends c d updates s), bump-serial_greater t.serial small)
    where
      served : soa_of (bump_serial (apply d.zone d.rrs updates).0) ≡ some (h, bumped t)
      served =
          soa_of-bump_serial (apply d.zone d.rrs updates).0 h t
            (apply-soa_of tell d.zone d.rrs updates a st ∙ cur)

      split :
          (((apply d.zone d.rrs updates).1 ≡ false)
              × (commit_locked c d updates s ≡ (returned success, d, s)))
            ⊎ (((apply d.zone d.rrs updates).1 ≡ true)
                × Ends c d
                    (bump_serial (apply d.zone d.rrs updates).0)
                    s
                    (commit_locked c d updates s))
          → soa_of (commit_locked c d updates s).1.rrs ≡ some (h, bumped t)
      split (inl (same, _)) = ground (arith, same, changed)
      split (inr (_, inl (_, i))) = ap soa_of i.rrs ∙ served
      split (inr (_, inr (inl (refused, _)))) = absurd (cc (refused, done))
      split (inr (_, inr (inr (crashed, _, _, _)))) = absurd (cc (crashed, done))
