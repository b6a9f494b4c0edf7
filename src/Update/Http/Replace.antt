-- ===== src/Update/Http/Replace.antt =====
-- Changes from the HTTP API: their SOAs, and what becomes of them.
use coredns_ez.Prelude.{
  ◌≡◌, ◌≢◌, ◌<◌, ◌+◌, ◌%◌, refl, sym, ap, ◌⊎◌, inl, inr, Bool, true, false, Option, none, List, [],
  ◌∷◌, Result, ok, err, bind_ok, value_or, All, arith, nat_tests, text_tests, if◌then◌else◌,
}
use coredns_ez.Dns.{Header, Soa, Rr, soa, other, header, class_inet, success, Dns}
use coredns_ez.Dns.Serial.{u32_mod, serial_greater, bump-serial_greater}
use coredns_ez.Update.Prescan.{prescan}
use coredns_ez.Update.Commit.{UpdatePersist, Config, Ending, returned, panicked, commit_locked}
use coredns_ez.Update.Http.{HttpError, newer_soas, http_updates, http_apply, error_at}

-- an SOA of class IN, with a newer serial
abbrev pub IsNewer : Soa → Rr → Type 0
IsNewer cur (soa h s) = (h.class ≡ class_inet) × (serial_greater s.serial cur.serial ≡ true)
IsNewer cur (other h d) = ⊥

renewed-IsNewer :
    (cur : Soa) (h : Header) (s : Soa)
    → cur.serial < u32_mod
    → h.class ≡ class_inet
    → IsNewer cur (
        if serial_greater s.serial cur.serial
        then soa h s
        else soa h (record s { serial = (cur.serial + 1) % u32_mod }))
renewed-IsNewer cur h s small inet = split (serial_greater s.serial cur.serial) refl
  where
    split :
        (b : Bool)
        → serial_greater s.serial cur.serial ≡ b
        → IsNewer cur
            (if b then soa h s else soa h (record s { serial = (cur.serial + 1) % u32_mod }))
    split true q = (inet, q)
    split false q = (inet, bump-serial_greater cur.serial small)

pub newer_soas-IsNewer :
    (cur : Soa) (rrs out : List Rr)
    → cur.serial < u32_mod
    → All (λ x. (header x).class ≡ class_inet) rrs
    → newer_soas cur rrs ≡ ok out
    → All (IsNewer cur) out
unfolding newer_soas header
newer_soas-IsNewer cur [] out small inet e = rw (sym (ap (value_or []) e)) tt
newer_soas-IsNewer cur (other h d ∷ rrs) out small inet e = ground (arith, e)
newer_soas-IsNewer cur (soa h s ∷ rrs) out small (own, inet) e =
    let (rest, more, last) = bind_ok (newer_soas cur rrs) _ out e in
    rw (sym (ap (value_or []) last))
      (renewed-IsNewer cur h s small own, newer_soas-IsNewer cur rrs rest small inet more)

module _ ⦃dns : Dns⦄ {S : Type 0} (c : Config S) where
  abbrev pub Unchanged : UpdatePersist → S → Ending (Option HttpError) × UpdatePersist × S → Type 0
  Unchanged d s (ending, d', s') =
      (ending ≢ returned none) × (ending ≢ panicked) × (d' ≡ d) × (s' ≡ s)

  prescanned :
      (d : UpdatePersist) (adds deletes updates : List Rr) (s : S)
      → http_updates d adds deletes ≡ ok updates
      → Unchanged d s (http_apply c d adds deletes s)
        ⊎ ((prescan d.zone d.mutable false updates ≡ success)
            × (http_apply c d adds deletes s ≡ (
                let (ending, d', s') = commit_locked c d updates s in (error_at ending, d', s'))))
  unfolding http_apply
  prescanned d adds deletes updates s q = ground (arith, q)

  -- A change over HTTP either reports an error and leaves the zone and the store as they were, or
  -- it was turned into updates that passed the prescan, and is the commit of those, without the
  -- type policy that wire updates are held to.
  pub http_apply-commits :
      (d : UpdatePersist) (adds deletes : List Rr) (s : S)
      → Unchanged d s (http_apply c d adds deletes s)
        ⊎ ((updates : List Rr) × (http_updates d adds deletes ≡ ok updates)
            × (prescan d.zone d.mutable false updates ≡ success)
            × (http_apply c d adds deletes s ≡ (
                let (ending, d', s') = commit_locked c d updates s in (error_at ending, d', s'))))
  unfolding http_apply
  http_apply-commits d adds deletes s = split (http_updates d adds deletes) refl
    where
      split :
          (o : Result HttpError (List Rr))
          → http_updates d adds deletes ≡ o
          → Unchanged d s (http_apply c d adds deletes s)
            ⊎ ((updates : List Rr) × (http_updates d adds deletes ≡ ok updates)
                × (prescan d.zone d.mutable false updates ≡ success)
                × (http_apply c d adds deletes s ≡ (
                    let (ending, d', s') = commit_locked c d updates s in
                    (error_at ending, d', s'))))
      split (err e) q = inl (ground (arith, q))
      split (ok updates) q = elim (prescanned d adds deletes updates s q) [
        | inl u ↦ inl u
        | inr (p, r) ↦ inr (updates, q, p, r)
      ]
