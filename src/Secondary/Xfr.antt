-- ===== src/Secondary/Xfr.antt =====
-- secondary-persistent/ixfr.go: what a secondary makes of a transfer: its kind, the increments of
-- an RFC 1995 stream, and the records after they are applied.
pub mod Stream
pub mod Apply
pub mod Lost
use coredns_ez.Prelude.{
  ℕ, Bool, true, false, not, Option, none, some, List, [], ◌∷◌, ◌++◌, Result, ok, err, ◌>>=◌, last,
  init, some_of, ◌==◌, nat_tests, ◌&&◌, ◌||◌, if◌then◌else◌,
}
use coredns_ez.Dns.{Header, Soa, Rr, soa, other, Dns}
use coredns_ez.Dns.Serial.{less}
use coredns_ez.JournalText.{Increment}

pub data XfrKind : Type 0 where
  uptodate axfr ixfr : XfrKind

pub data XfrError : Type 0 where
  empty_transfer no_first_soa no_last_soa serial_mismatch : XfrError
  too_short no_add_section serial_not_newer outside_section add_without_delete : XfrError
  no_increments wrong_final_serial : XfrError

-- whether `rr` is an SOA with another serial
unfoldable pub differs : ℕ → Rr → Bool
differs serial (soa _ s) = not (s.serial == serial)
differs serial (other _ _) = false

classify_body : ℕ → List Rr → Result XfrError XfrKind
unfolding differs
classify_body serial rest = elim (last rest) [
  | none ↦ ok uptodate
  | some (other _ _) ↦ err no_last_soa
  | some (soa _ s) ↦
      if s.serial == serial
      then ok (if some_of (differs serial) (init rest) then ixfr else axfr)
      else err serial_mismatch
]

unfoldable pub classify_xfr : List Rr → Result XfrError XfrKind
unfolding classify_body
classify_xfr [] = err empty_transfer
classify_xfr (other _ _ ∷ rest) = err no_first_soa
classify_xfr (soa _ s ∷ rest) = classify_body s.serial rest

pub data Mode : Type 0 where
  outside del add : Mode

-- the loop's variables
pub record Parser : Type 0 where
  pub mode : Mode
  pub incs : List Increment
  pub cur : Increment

abbrev pub blank : Increment
blank = record { old_serial = 0; new_serial = 0; deleted = []; added = [] }

-- the closure `flush`
unfoldable pub flush_mode : Mode → Parser → Result XfrError Parser
flush_mode outside p = ok p
flush_mode del p = err no_add_section
flush_mode add p =
    if p.cur.old_serial == p.cur.new_serial || not (less p.cur.old_serial p.cur.new_serial)
    then err serial_not_newer
    else ok (record p { incs = p.incs ++ p.cur ∷ []; cur = blank })

on_record : Mode → Rr → Parser → Result XfrError Parser
on_record outside rr p = err outside_section
on_record del rr p = ok (record p { cur = record p.cur { deleted = p.cur.deleted ++ rr ∷ [] } })
on_record add rr p = ok (record p { cur = record p.cur { added = p.cur.added ++ rr ∷ [] } })

-- an SOA with another serial than the envelope opens a delete section
open_delete : ℕ → Parser → Result XfrError Parser
open_delete serial p = ok (record p { mode = del; cur = record p.cur { old_serial = serial } })

on_old_soa : Mode → ℕ → Parser → Result XfrError Parser
unfolding flush_mode open_delete
on_old_soa add serial p = flush_mode add p >>= open_delete serial
on_old_soa outside serial p = open_delete serial p
on_old_soa del serial p = open_delete serial p

-- an SOA with the envelope's serial opens an add section
on_new_soa : Mode → ℕ → Parser → Result XfrError Parser
on_new_soa del serial p = ok (record p { mode = add; cur = record p.cur { new_serial = serial } })
on_new_soa outside serial p = err add_without_delete
on_new_soa add serial p = err add_without_delete

unfoldable pub on_rr : ℕ → Rr → Parser → Result XfrError Parser
unfolding on_record on_old_soa on_new_soa
on_rr envelope (other h d) p = on_record p.mode (other h d) p
on_rr envelope (soa h s) p =
    if s.serial == envelope then on_new_soa p.mode s.serial p else on_old_soa p.mode s.serial p

unfoldable pub scan_rrs : ℕ → List Rr → Parser → Result XfrError Parser
unfolding on_rr
scan_rrs envelope [] p = ok p
scan_rrs envelope (rr ∷ rrs) p = on_rr envelope rr p >>= scan_rrs envelope rrs

-- the checks behind the loop
unfoldable pub finish : ℕ → Parser → Result XfrError (List Increment)
finish envelope p = elim (last p.incs) [
  | none ↦ err no_increments
  | some i ↦ if i.new_serial == envelope then ok p.incs else err wrong_final_serial
]

unfoldable pub parse_body : ℕ → List Rr → Result XfrError (List Increment)
parse_body envelope rrs = do
  p ← scan_rrs envelope rrs (record { mode = outside; incs = []; cur = blank })
  q ← flush_mode p.mode p
  finish envelope q

-- behind the first record: the last one is the same SOA, and the rest is the body
unfoldable pub parse_rest : ℕ → List Rr → Result XfrError (List Increment)
parse_rest serial rest = elim (last rest) [
  | none ↦ err no_last_soa
  | some (other _ _) ↦ err no_last_soa
  | some (soa _ l) ↦ if l.serial == serial then parse_body serial (init rest) else err no_last_soa
]

unfoldable pub parse_ixfr : List Rr → Result XfrError (List Increment)
parse_ixfr [] = err too_short
parse_ixfr (rr ∷ []) = err too_short
parse_ixfr (other _ _ ∷ r ∷ rest) = err no_first_soa
parse_ixfr (soa _ s ∷ r ∷ rest) = parse_rest s.serial (r ∷ rest)

module _ ⦃dns : Dns⦄ where
  -- The deletions that are left once `rr` has used one up; `none` if none of them is it.
  unfoldable pub use_up : Rr → List Rr → Option (List Rr)
  use_up rr [] = none
  use_up rr (d ∷ ds) =
      let rest : Option (List Rr) = elim (use_up rr ds) [
        | none ↦ none
        | some ds' ↦ some (d ∷ ds')
      ] in
      if dns.is_duplicate rr d then some ds else rest

  unfoldable pub remove_rrs : List Rr → List Rr → List Rr
  remove_rrs [] dels = []
  remove_rrs (rr ∷ rrs) dels = elim (use_up rr dels) [
    | none ↦ rr ∷ remove_rrs rrs dels
    | some dels' ↦ remove_rrs rrs dels'
  ]

  unfoldable pub replace_incs : List Rr → List Increment → List Rr
  replace_incs out [] = out
  replace_incs out (i ∷ is) = replace_incs (remove_rrs out i.deleted ++ i.added) is

-- the loop of replaceSOA; `found` says whether the new SOA stands already
replace_from : Bool → Header × Soa → List Rr → List Rr
replace_from found new [] = []
replace_from found new (other h d ∷ rrs) = other h d ∷ replace_from found new rrs
replace_from false (h', s') (soa h s ∷ rrs) = soa h' s' ∷ replace_from true (h', s') rrs
replace_from true new (soa h s ∷ rrs) = replace_from true new rrs

any_soa : List Rr → Bool
any_soa [] = false
any_soa (soa h s ∷ rrs) = true
any_soa (other h d ∷ rrs) = any_soa rrs

unfoldable pub replace_soa : List Rr → Header × Soa → List Rr
unfolding replace_from any_soa
replace_soa rrs (h, s) =
    let out = replace_from false (h, s) rrs in if any_soa rrs then out else soa h s ∷ out

unfoldable pub apply_increments : ⦃dns : Dns⦄ → List Rr → List Increment → Header × Soa → List Rr
apply_increments current incs new = replace_soa (replace_incs current incs) new
