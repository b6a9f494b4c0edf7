-- ===== src/Admin/Views/Label.antt =====
-- The cache's label of a client, which internal/cachegen takes from the plugin: what it separates.
use coredns_ez.Prelude.{
  ◌≡◌, refl, sym, ap, ◌∙◌, inl, inr, String, Bool, true, false, Option, none, some, List, [], ◌∷◌,
  arith, text_tests, Option-cases, if◌then◌else◌,
}
use coredns_ez.Dns.{Dns}
use coredns_ez.Cachegen.{Ip, Gen, label}
use coredns_ez.Cache.Message.{Question}
use coredns_ez.Update.Commit.{UpdatePersist}
use coredns_ez.Admin.Filter.{Labels}
use coredns_ez.Admin.Views.{
  Network, Admin, Served, by_next, by_refusal, by_keys, by_meta, by_secondary, by_filter,
  is_secondary, filtered, value_of, match_map, choose, contains, match_acl, register_label,
  matching_view, pick_view, pick_between, pick_serve, recursion_allowed, primary_zone, view_zone,
  passed_on, wants_keys, wants_meta, serve_with_next,
}
use coredns_ez.Admin.Views.Names.{
  NamesAllowed, label_by_acl, label-of, cache_label-name, view_named, matching_view-name,
}

module _ ⦃dns : Dns⦄ (net : Network) (a : Admin) where
  module _ (i j : Option Ip)
      (same : (origin : String) → matching_view net a origin i ≡ matching_view net a origin j) where
    pick_between-same :
        (qs : List Question) (origin : String) (p : UpdatePersist)
        → pick_between net a origin qs i p ≡ pick_between net a origin qs j p
    unfolding pick_between
    pick_between-same [] origin p = refl
    pick_between-same (q ∷ qs) origin p = rw (same origin) refl

    pick_serve-same :
        (qs : List Question) (origin : String)
        → pick_serve net a origin qs i ≡ pick_serve net a origin qs j
    unfolding pick_serve
    pick_serve-same qs origin = elim (Option-cases (value_of origin a.primaries)) [
      | inl missing ↦ rw (missing, pick_serve) refl
      | inr (p, at) ↦ rw (at, pick_serve) (ap some (pick_between-same qs origin p))
    ]

    pick_view-same :
        (qs : List Question) (origin : String)
        → pick_view net a origin qs i ≡ pick_view net a origin qs j
    unfolding pick_view
    pick_view-same [] origin = refl
    pick_view-same (q ∷ qs) origin = rw (same origin) refl

    primary_zone-same :
        (qs : List Question) (name : String)
        → primary_zone net a qs i name ≡ primary_zone net a qs j name
    unfolding primary_zone
    primary_zone-same qs name = rw (pick_serve-same qs (match_map a.primaries name)) refl

    view_zone-same :
        (qs : List Question) (name : String) → view_zone net a qs i name ≡ view_zone net a qs j name
    unfolding view_zone
    view_zone-same qs name = rw (pick_view-same qs (match_map a.views name)) refl

  passed_on-same :
      (i j : Option Ip)
      → recursion_allowed net a i ≡ recursion_allowed net a j
      → passed_on net a i ≡ passed_on net a j
  unfolding passed_on
  passed_on-same i j e = rw e refl

  -- serveWithNext, from the outcomes of what it calls; the last is what becomes of a query that
  -- nobody has
  abbrev answered :
      Bool
      → Bool
      → Option UpdatePersist
      → Option UpdatePersist
      → Bool
      → Option Bool
      → Served
      → Option Served
  answered keys meta p v held hit s =
      if keys
      then some by_keys
      else if meta
      then some by_meta
      else choose p v (
          if held
          then some by_secondary
          else elim hit [ none ↦ none | some true ↦ some by_filter | some false ↦ some s ])

  abbrev of_client : Labels → List Question → Option Ip → Served → Option Served
  of_client labels qs ip s =
      answered (wants_keys a qs) (wants_meta net qs)
        (primary_zone net a qs ip (net.request_name qs))
        (view_zone net a qs ip (net.request_name qs))
        (is_secondary net a.secondaries (net.request_name qs))
        (filtered net labels a.filters (net.request_name qs)) s

  serve_with_next-of_client :
      (labels : Labels) (qs : List Question) (r : String) (ip : Option Ip)
      → net.parse_ip r ≡ ip
      → serve_with_next net labels a qs r ≡ of_client labels qs ip (passed_on net a ip)
  unfolding serve_with_next
  serve_with_next-of_client labels qs r ip e = ap (λ o. of_client labels qs o (passed_on net a o)) e

  of_client-same :
      (labels : Labels) (i j : Option Ip) (qs : List Question) (s : Served)
      → ((origin : String) → matching_view net a origin i ≡ matching_view net a origin j)
      → of_client labels qs i s ≡ of_client labels qs j s
  of_client-same labels i j qs s same =
      rw
        (
          primary_zone-same i j same qs (net.request_name qs),
          view_zone-same i j same qs (net.request_name qs),
        )
        refl

  -- If the ACLs in the database have names that ValidACLName lets pass, then two clients with
  -- parsed addresses and one label in the keys of the cache, of whom both or neither may recurse,
  -- get the same answerer for every query.
  pub serve_with_next-label :
      (labels : Labels) (g : Gen) (qs : List Question) (r1 r2 : String) (i j : Ip)
      → NamesAllowed net a
      → net.parse_ip r1 ≡ some i
      → net.parse_ip r2 ≡ some j
      → label net.parse_ip (register_label net a g) r1
        ≡ label net.parse_ip (register_label net a g) r2
      → recursion_allowed net a (some i) ≡ recursion_allowed net a (some j)
      → serve_with_next net labels a qs r1 ≡ serve_with_next net labels a qs r2
  serve_with_next-label labels g qs r1 r2 i j allowed p1 p2 same allow =
      let labels_same =
        sym (label-of net a g r1 i p1 allowed) ∙ (same ∙ label-of net a g r2 j p2 allowed) in
      let names_same = cache_label-name net a i j allowed labels_same in
      let views_same : (origin : String)
          → matching_view net a origin (some i) ≡ matching_view net a origin (some j) =
        λ origin.
          matching_view-name net a origin i
          ∙ (ap (view_named net a origin) names_same ∙ sym (matching_view-name net a origin j)) in
      serve_with_next-of_client labels qs r1 (some i) p1
      ∙ (of_client-same labels (some i) (some j) qs (passed_on net a (some i)) views_same
          ∙ (ap (of_client labels qs (some j)) (passed_on-same (some i) (some j) allow)
              ∙ sym (serve_with_next-of_client labels qs r2 (some j) p2)))

  passed_on-by :
      (i : Ip) (b : Bool)
      → contains net a.recursion (some i) ≡ b
      → passed_on net a (some i) ≡ (if b then by_next else by_refusal)
  unfolding passed_on recursion_allowed
  passed_on-by i b e = rw e refl

  primary_zone-none :
      (qs : List Question) (ip : Option Ip) (name : String)
      → match_map a.primaries name ≡ ""
      → primary_zone net a qs ip name ≡ none
  unfolding primary_zone
  primary_zone-none qs ip name e = rw (e, primary_zone) refl

  pick_view-none :
      (origin : String) (qs : List Question) (i : Ip)
      → match_acl net a (some i) ≡ none
      → pick_view net a origin qs (some i) ≡ none
  unfolding pick_view matching_view
  pick_view-none origin [] i out = refl
  pick_view-none origin (q ∷ qs) i out = rw (out, pick_view, matching_view) refl

  view_zone-none :
      (qs : List Question) (i : Ip) (name : String)
      → match_acl net a (some i) ≡ none
      → view_zone net a qs (some i) name ≡ none
  unfolding view_zone
  view_zone-none qs i name out = ground (arith, pick_view-none (match_map a.views name) qs i out)

  -- a query that the plugin has nothing for: it is not about keys or metadata, its name is below
  -- the origin of no primary and of no secondary, and the filters let it pass
  pub record IsElsewhere (labels : Labels) (qs : List Question) : Type 0 where
    pub no_keys : wants_keys a qs ≡ false
    pub no_meta : wants_meta net qs ≡ false
    pub no_primary : match_map a.primaries (net.request_name qs) ≡ ""
    pub no_secondary : is_secondary net a.secondaries (net.request_name qs) ≡ false
    pub not_blocked : filtered net labels a.filters (net.request_name qs) ≡ some false

  serve_with_next-elsewhere :
      (labels : Labels) (qs : List Question) (r : String) (i : Ip)
      → net.parse_ip r ≡ some i
      → match_acl net a (some i) ≡ none
      → IsElsewhere labels qs
      → serve_with_next net labels a qs r ≡ some (passed_on net a (some i))
  serve_with_next-elsewhere labels qs r i p out e =
      serve_with_next-of_client labels qs r (some i) p
      ∙ rw
          (
            e.no_keys,
            e.no_meta,
            primary_zone-none qs (some i) (net.request_name qs) e.no_primary,
            view_zone-none qs i (net.request_name qs) out,
            e.no_secondary,
            e.not_blocked,
          )
          refl

  -- Let the ACLs in the database have names that ValidACLName lets pass. Two clients with parsed
  -- addresses whom no ACL contains have one label in the keys of the cache. If the recursion list
  -- contains the one and not the other, then a query that is not for keys or metadata, whose name
  -- is below the origin of no primary and of no secondary and which no filter blocks, goes to the
  -- next plugin for the one and is refused to the other.
  pub recursion_outside_label :
      (labels : Labels) (g : Gen) (qs : List Question) (r1 r2 : String) (i j : Ip)
      → NamesAllowed net a
      → net.parse_ip r1 ≡ some i
      → net.parse_ip r2 ≡ some j
      → match_acl net a (some i) ≡ none
      → match_acl net a (some j) ≡ none
      → contains net a.recursion (some i) ≡ true
      → contains net a.recursion (some j) ≡ false
      → IsElsewhere labels qs
      → (label net.parse_ip (register_label net a g) r1
          ≡ label net.parse_ip (register_label net a g) r2)
        × (serve_with_next net labels a qs r1 ≡ some by_next)
        × (serve_with_next net labels a qs r2 ≡ some by_refusal)
  recursion_outside_label labels g qs r1 r2 i j allowed p1 p2 out1 out2 may may_not e = (
    label-of net a g r1 i p1 allowed
        ∙ ((label_by_acl net a i none out1 allowed).1
            ∙ (sym (label_by_acl net a j none out2 allowed).1
                ∙ sym (label-of net a g r2 j p2 allowed))),
    serve_with_next-elsewhere labels qs r1 i p1 out1 e ∙ ap some (passed_on-by i true may),
    serve_with_next-elsewhere labels qs r2 j p2 out2 e ∙ ap some (passed_on-by j false may_not),
  )
