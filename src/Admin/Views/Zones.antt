-- ===== src/Admin/Views/Zones.antt =====
-- Which zones may answer a client: the public ones and the views of its ACL.
use mathlib.Core.Path.{subst}
use coredns_ez.Prelude.{
  else_some, ◌≡◌, refl, inl, inr, String, true, false, Option, none, some, List, [], ◌∷◌,
  text_tests, arith, Bool-cases, Option-cases, if-cases,
}
use coredns_ez.Prelude.Options.{some_injective}
use coredns_ez.Dns.{Dns}
use coredns_ez.Cachegen.{Ip}
use coredns_ez.Cache.Message.{Question}
use coredns_ez.Update.Commit.{UpdatePersist}
use coredns_ez.Admin.Views.{
  Acl, Network, Admin, value_of, match_map, zone_transfer, zone_answers, zone_covers, contains,
  first_acl, match_acl, view_of, matching_view, pick_view_for, pick_view, prefer, pick_between,
  pick_serve, primary_zone, view_zone,
}

module _ ⦃dns : Dns⦄ (net : Network) (a : Admin) where
  -- the first of the ACLs with a network that contains an address
  pub data First (ip : Ip) (acl : Acl) : List Acl → Type 0 where
    head :
        (acls : List Acl) → contains net acl.networks (some ip) ≡ true → First ip acl (acl ∷ acls)
    tail :
        (other : Acl) (acls : List Acl)
        → contains net other.networks (some ip) ≡ false
        → First ip acl acls
        → First ip acl (other ∷ acls)

  -- A zone that may answer: the public one of an origin, or a view that is kept for the first ACL
  -- that contains the client, and which is no answer to a transfer.
  pub data MayServe (qs : List Question) (ip : Option Ip) (z : UpdatePersist) : Type 0 where
    public_zone : (origin : String) → value_of origin a.primaries ≡ some z → MayServe qs ip z
    private_view :
        (origin : String) (i : Ip) (acls : List Acl) (acl : Acl)
        → ip ≡ some i
        → a.acls ≡ some acls
        → First i acl acls
        → view_of net a origin acl.name ≡ some z
        → zone_transfer qs ≡ false
        → MayServe qs ip z

  first_acl-head :
      (x : Acl) (acls : List Acl) (i : Ip)
      → contains net x.networks (some i) ≡ true
      → first_acl net (x ∷ acls) i ≡ some x
  unfolding first_acl
  first_acl-head x acls i h = rw h refl

  first_acl-First :
      (acls : List Acl) (i : Ip) (acl : Acl) → first_acl net acls i ≡ some acl → First i acl acls
  unfolding first_acl
  first_acl-First [] i acl e = absurd (cc e)
  first_acl-First (x ∷ acls) i acl e = elim (Bool-cases (contains net x.networks (some i))) [
    | inl here ↦
        subst (λ y. First i y (x ∷ acls)) (some_injective (rw (← first_acl-head x acls i here) e))
          (head acls here)
    | inr not_here ↦ tail x acls not_here (first_acl-First acls i acl (ground (arith, e, not_here)))
  ]

  view-MayServe :
      (qs : List Question) (origin : String) (i : Ip) (z : UpdatePersist) (acls : List Acl)
      (o : Option Acl)
      → zone_transfer qs ≡ false
      → a.acls ≡ some acls
      → first_acl net acls i ≡ o
      → (elim o as (λ _. Option UpdatePersist) [
        | none ↦ none
        | some acl ↦ view_of net a origin acl.name
      ])
        ≡ some z
      → MayServe qs (some i) z
  view-MayServe qs origin i z acls none t read first e = absurd (cc e)
  view-MayServe qs origin i z acls (some acl) t read first e =
      private_view origin i acls acl refl read (first_acl-First acls i acl first) e t

  matching_view-MayServe :
      (qs : List Question) (origin : String) (ip : Option Ip) (z : UpdatePersist)
      → zone_transfer qs ≡ false
      → matching_view net a origin ip ≡ some z
      → MayServe qs ip z
  unfolding matching_view match_acl
  matching_view-MayServe qs origin none z t e = absurd (cc e)
  matching_view-MayServe qs origin (some i) z t e = elim (Option-cases a.acls) [
    | inl failed ↦ absurd (cc (rw failed at e))
    | inr (acls, read) ↦
        view-MayServe qs origin i z acls (first_acl net acls i) t read refl (rw read at e)
  ]

  pick_view_for-from :
      (o : Option UpdatePersist) (q : Question) (z : UpdatePersist)
      → pick_view_for net o q ≡ some z
      → o ≡ some z
  unfolding pick_view_for
  pick_view_for-from none q z e = e
  pick_view_for-from (some v) q z e = ground (arith, e)

  pick_view-MayServe :
      (qs : List Question) (origin : String) (ip : Option Ip) (z : UpdatePersist)
      → zone_transfer qs ≡ false
      → pick_view net a origin qs ip ≡ some z
      → MayServe qs ip z
  unfolding pick_view
  pick_view-MayServe [] origin ip z t e = absurd (cc e)
  pick_view-MayServe (q ∷ qs) origin ip z t e =
      matching_view-MayServe (q ∷ qs) origin ip z t (pick_view_for-from _ q z e)

  prefer-either :
      (P : UpdatePersist → Type 0) (o : Option UpdatePersist) (p : UpdatePersist) (q : Question)
      → P p
      → ((v : UpdatePersist) → o ≡ some v → P v)
      → P (prefer net o p q)
  unfolding prefer
  prefer-either P none p q of_public of_view = of_public
  prefer-either P (some v) p q of_public of_view = elim (Bool-cases (zone_answers net v q)) [
    | inl exact ↦ rw (exact, prefer) (of_view v refl)
    | inr missed ↦ elim (Bool-cases (zone_answers net p q)) [
      | inl exact ↦ rw (missed, exact, prefer) of_public
      | inr neither ↦ elim (Bool-cases (zone_covers net v q)) [
        | inl wild ↦ rw (missed, neither, wild, prefer) (of_view v refl)
        | inr plain ↦ rw (missed, neither, plain, prefer) of_public
      ]
    ]
  ]

  pick_between-MayServe :
      (qs : List Question) (origin : String) (ip : Option Ip) (p : UpdatePersist)
      → value_of origin a.primaries ≡ some p
      → MayServe qs ip (pick_between net a origin qs ip p)
  unfolding pick_between zone_transfer
  pick_between-MayServe [] origin ip p at = public_zone origin at
  pick_between-MayServe (q ∷ qs) origin ip p at =
      if-cases (MayServe (q ∷ qs) ip) (zone_transfer (q ∷ qs)) p _
        (λ transfer. public_zone origin at)
        (λ query.
          prefer-either (MayServe (q ∷ qs) ip) (matching_view net a origin ip) p q
            (public_zone origin at)
            (λ v found. matching_view-MayServe (q ∷ qs) origin ip v query found))

  pick_serve-MayServe :
      (qs : List Question) (origin : String) (ip : Option Ip) (z : UpdatePersist)
      → pick_serve net a origin qs ip ≡ some z
      → MayServe qs ip z
  unfolding pick_serve
  pick_serve-MayServe qs origin ip z e = elim (Option-cases (value_of origin a.primaries)) [
    | inl missing ↦ absurd (cc (rw (missing, pick_serve) at e))
    | inr (p, at) ↦
        subst (MayServe qs ip) (some_injective (rw (at, pick_serve) at e))
          (pick_between-MayServe qs origin ip p at)
  ]

  pub primary_zone-MayServe :
      (qs : List Question) (ip : Option Ip) (name : String) (z : UpdatePersist)
      → primary_zone net a qs ip name ≡ some z
      → MayServe qs ip z
  unfolding primary_zone
  primary_zone-MayServe qs ip name z e =
      let (named, served) = else_some _ _ z e in
      pick_serve-MayServe qs (match_map a.primaries name) ip z served

  pub view_zone-MayServe :
      (qs : List Question) (ip : Option Ip) (name : String) (z : UpdatePersist)
      → view_zone net a qs ip name ≡ some z
      → MayServe qs ip z
  unfolding view_zone
  view_zone-MayServe qs ip name z e =
      let (query, rest) = else_some _ _ z e in
      let (named, picked) = else_some _ _ z rest in
      pick_view-MayServe qs (match_map a.views name) ip z query picked
