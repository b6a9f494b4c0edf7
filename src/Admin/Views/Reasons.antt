-- ===== src/Admin/Views/Reasons.antt =====
-- Why a query is answered by whom: the split horizon, the filter and the recursion networks.
use mathlib.Core.Path.{subst}
use coredns_ez.Prelude.{
  ap, ◌≡◌, refl, sym, ◌∙◌, inl, inr, String, Bool, true, false, Option, none, some, List, ◌==◌,
  text_tests, arith, Bool-cases, Option-cases, if-cases, if◌then◌else◌,
}
use coredns_ez.Prelude.Options.{some_injective}
use coredns_ez.Dns.{Dns}
use coredns_ez.JournalText.Scan.{codes}
use coredns_ez.Cachegen.{Ip}
use coredns_ez.Cache.Message.{Question}
use coredns_ez.Update.Commit.{UpdatePersist}
use coredns_ez.Admin.Filter.{Labels, FilterEngine, blocked}
use coredns_ez.Admin.Filter.Ancestors.{blocked-Total}
use coredns_ez.Admin.Views.{
  Network, Admin, Served, by_zone, by_secondary, by_filter, by_next, by_refusal, contains,
  recursion_allowed, primary_zone, view_zone, is_secondary, filtered, passed_on, elsewhere, choose,
  route,
}
use coredns_ez.Admin.Views.Zones.{MayServe, primary_zone-MayServe, view_zone-MayServe}

module _ ⦃dns : Dns⦄ (net : Network) (labels : Labels) (a : Admin) where
  -- what has to be so where the plugin ends in one way or the other
  pub data Reason (qs : List Question) (ip : Option Ip) : Served → Type 0 where
    serves : (z : UpdatePersist) → MayServe net a qs ip z → Reason qs ip (by_zone z)
    secondary :
        (names : List String)
        → a.secondaries ≡ some names
        → (net.zone_matches names (net.request_name qs) == "") ≡ false
        → Reason qs ip by_secondary
    blocking :
        (e : FilterEngine)
        → a.filters ≡ some e
        → blocked labels e (codes (net.request_name qs)) ≡ some true
        → Reason qs ip by_filter
    recursing :
        (i : Ip)
        → ip ≡ some i
        → contains net a.recursion (some i) ≡ true
        → ((e : FilterEngine)
            → a.filters ≡ some e
            → blocked labels e (codes (net.request_name qs)) ≡ some false)
        → Reason qs ip by_next
    refusing : contains net a.recursion ip ≡ false → Reason qs ip by_refusal

  is_secondary-of :
      (o : Option (List String)) (name : String)
      → is_secondary net o name ≡ true
      → (names : List String) × (o ≡ some names) × ((net.zone_matches names name == "") ≡ false)
  unfolding is_secondary
  is_secondary-of none name e = absurd (cc e)
  is_secondary-of (some names) name e = (names, refl, ground (arith, e))

  passed_on-Reason :
      (qs : List Question) (ip : Option Ip)
      → ((e : FilterEngine)
          → a.filters ≡ some e
          → blocked labels e (codes (net.request_name qs)) ≡ some false)
      → Reason qs ip (passed_on net a ip)
  unfolding passed_on recursion_allowed contains
  passed_on-Reason qs none unfiltered = refusing refl
  passed_on-Reason qs (some i) unfiltered =
      if-cases (Reason qs (some i)) (contains net a.recursion (some i)) by_next by_refusal
        (λ allowed. recursing i refl allowed unfiltered) (λ denied. refusing denied)

  elsewhere-filtered :
      (ip : Option Ip) (name : String) (b : Bool)
      → is_secondary net a.secondaries name ≡ false
      → filtered net labels a.filters name ≡ some b
      → elsewhere net labels a ip name ≡ some (if b then by_filter else passed_on net a ip)
  unfolding elsewhere
  elsewhere-filtered ip name true h e = rw (h, e) refl
  elsewhere-filtered ip name false h e = rw (h, e) refl

  filtered-Reason :
      (qs : List Question) (ip : Option Ip) (o : Option FilterEngine)
      → a.filters ≡ o
      → is_secondary net a.secondaries (net.request_name qs) ≡ false
      → (s : Served) × (elsewhere net labels a ip (net.request_name qs) ≡ some s) × Reason qs ip s
  unfolding filtered
  filtered-Reason qs ip none off not_secondary = (
    passed_on net a ip,
    elsewhere-filtered ip _ false not_secondary
        (ap (λ o. filtered net labels o (net.request_name qs)) off),
    passed_on-Reason qs ip (λ e on. absurd (cc (off, on))),
  )
  filtered-Reason qs ip (some e) on not_secondary =
      let (b, answered) = blocked-Total labels e (codes (net.request_name qs)) in verdict b answered
    where
      verdict :
          (b : Bool)
          → blocked labels e (codes (net.request_name qs)) ≡ some b
          → (s : Served) × (elsewhere net labels a ip (net.request_name qs) ≡ some s)
            × Reason qs ip s
      verdict true answered = (
        by_filter,
        elsewhere-filtered ip _ true not_secondary
            (ap (λ o. filtered net labels o (net.request_name qs)) on ∙ answered),
        blocking e on answered,
      )
      verdict false answered = (
        passed_on net a ip,
        elsewhere-filtered ip _ false not_secondary
            (ap (λ o. filtered net labels o (net.request_name qs)) on ∙ answered),
        passed_on-Reason qs ip (λ x at.
            subst (λ y. blocked labels y (codes (net.request_name qs)) ≡ some false)
              (some_injective (sym on ∙ at)) answered),
      )

  elsewhere-Reason :
      (qs : List Question) (ip : Option Ip)
      → (s : Served) × (elsewhere net labels a ip (net.request_name qs) ≡ some s) × Reason qs ip s
  unfolding elsewhere
  elsewhere-Reason qs ip =
      elim (Bool-cases (is_secondary net a.secondaries (net.request_name qs))) [
        | inl held ↦
            let (names, at, named) = is_secondary-of a.secondaries (net.request_name qs) held in
            (by_secondary, rw held refl, secondary names at named)
        | inr not_held ↦ filtered-Reason qs ip a.filters refl not_held
      ]

  pub route_by_choose :
      (qs : List Question) (ip : Option Ip)
      → route net labels a qs ip
        ≡ choose
            (primary_zone net a qs ip (net.request_name qs))
            (view_zone net a qs ip (net.request_name qs))
            (elsewhere net labels a ip (net.request_name qs))
  unfolding route
  route_by_choose qs ip = refl

  -- Every query that is not about keys is answered, for a reason: by a zone that is the public one
  -- of a primary, or the view of the first ACL that contains the client's address, and then the
  -- query is no transfer; by the secondaries, which have its name; by the filter, which blocks it;
  -- by the next plugin, and then the client is in a recursion network and no filter blocks the
  -- name; or by a refusal, and then it is not in one.
  pub route-Reason :
      (qs : List Question) (ip : Option Ip)
      → (s : Served) × (route net labels a qs ip ≡ some s) × Reason qs ip s
  route-Reason qs ip = elim (Option-cases (primary_zone net a qs ip (net.request_name qs))) [
    | inr (z, found) ↦ (
      by_zone z,
      route_by_choose qs ip ∙ rw found refl,
      serves z (primary_zone-MayServe net a qs ip _ z found),
    )
    | inl no_primary ↦ elim (Option-cases (view_zone net a qs ip (net.request_name qs))) [
      | inr (z, found) ↦ (
        by_zone z,
        route_by_choose qs ip ∙ rw (no_primary, found) refl,
        serves z (view_zone-MayServe net a qs ip _ z found),
      )
      | inl no_view ↦
          let (s, e, reason) = elsewhere-Reason qs ip in
          (s, route_by_choose qs ip ∙ rw (no_primary, no_view) e, reason)
    ]
  ]
