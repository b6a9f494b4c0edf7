-- ===== src/Admin/Views/Names.antt =====
-- The name of a client's ACL, the label that the cache gets for it, and the view that goes with it.
use mathlib.Core.Path.{subst}
use coredns_ez.Prelude.{
  ◌≡◌, ◌≢◌, refl, sym, ap, ◌∙◌, inl, inr, String, false, Option, none, some, List, [], ◌∷◌, ◌==◌,
  text_tests, eq_iff, Bool-cases, Option-cases, All,
}
use coredns_ez.Prelude.Options.{some_injective}
use coredns_ez.Dns.{Dns}
use coredns_ez.Cachegen.{Ip, Gen, set_matcher, label}
use coredns_ez.Update.Commit.{UpdatePersist}
use coredns_ez.Admin.Views.{
  Acl, Network, Admin, contains, first_acl, match_acl, cache_label, register_label, view_of,
  matching_view,
}

-- ValidACLName refuses these names.
abbrev pub IsAllowed : Acl → Type 0
IsAllowed acl = (acl.name ≢ "") × (acl.name ≢ "public")

module _ ⦃dns : Dns⦄ (net : Network) (a : Admin) where
  -- the ACLs in the database have names that ValidACLName lets pass
  abbrev pub NamesAllowed : Type 0
  NamesAllowed = (acls : List Acl) → a.acls ≡ some acls → All IsAllowed acls

  -- the name of the ACL of a client
  abbrev pub name_of : Option Acl → Option String
  name_of none = none
  name_of (some acl) = some acl.name

  first_acl-IsAllowed :
      (acls : List Acl) (i : Ip) (acl : Acl)
      → All IsAllowed acls
      → first_acl net acls i ≡ some acl
      → IsAllowed acl
  unfolding first_acl
  first_acl-IsAllowed [] i acl h e = absurd (cc e)
  first_acl-IsAllowed (x ∷ acls) i acl (h, hs) e =
      elim (Bool-cases (contains net x.networks (some i))) [
        | inl at ↦ subst IsAllowed (some_injective (rw (at, first_acl) at e)) h
        | inr not_at ↦ first_acl-IsAllowed acls i acl hs (rw (not_at, first_acl) at e)
      ]

  match_acl-IsAllowed :
      (i : Ip) (acl : Acl) → NamesAllowed → match_acl net a (some i) ≡ some acl → IsAllowed acl
  unfolding match_acl
  match_acl-IsAllowed i acl allowed e = elim (Option-cases a.acls) [
    | inl failed ↦ absurd (cc (rw (failed, match_acl) at e))
    | inr (acls, read) ↦
        first_acl-IsAllowed acls i acl (allowed acls read) (rw (read, match_acl) at e)
  ]

  pub label_by_acl :
      (i : Ip) (o : Option Acl)
      → match_acl net a (some i) ≡ o
      → NamesAllowed
      → ((cache_label net a i == "") ≡ false)
        × (cache_label net a i ≡ (elim (name_of o) [ none ↦ "public" | some name ↦ name ]))
        × ((cache_label net a i ≡ "public") → o ≡ none)
  unfolding cache_label
  label_by_acl i none e allowed = (rw (e, cache_label) refl, rw (e, cache_label) refl, λ _. refl)
  label_by_acl i (some acl) e allowed =
      let (named, not_public) = match_acl-IsAllowed i acl allowed e in
      (
        rw (e, cache_label) (filled named),
        rw (e, cache_label) refl,
        λ p. absurd (not_public (rw (e, cache_label) at p)),
      )
    where
      filled : {n : String} → n ≢ "" → (n == "") ≡ false
      filled {n} named = elim (Bool-cases (n == "")) [
        | inl t ↦ absurd (named ((eq_iff n "").0 t))
        | inr f ↦ f
      ]

  pub label-of :
      (g : Gen) (remote : String) (i : Ip)
      → net.parse_ip remote ≡ some i
      → NamesAllowed
      → label net.parse_ip (register_label net a g) remote ≡ cache_label net a i
  unfolding label register_label set_matcher
  label-of g remote i parsed allowed =
      rw (parsed, (label_by_acl i (match_acl net a (some i)) refl allowed).0) refl

  pub cache_label-name :
      (i j : Ip)
      → NamesAllowed
      → cache_label net a i ≡ cache_label net a j
      → name_of (match_acl net a (some i)) ≡ name_of (match_acl net a (some j))
  cache_label-name i j allowed e = same _ _ refl refl
    where
      same :
          (o p : Option Acl)
          → match_acl net a (some i) ≡ o
          → match_acl net a (some j) ≡ p
          → name_of o ≡ name_of p
      same none none at at' = refl
      same none (some q) at at' = absurd (
          cc ((label_by_acl j (some q) at' allowed).2 (sym e ∙ (label_by_acl i none at allowed).1)))
      same (some x) none at at' =
          absurd
            (cc ((label_by_acl i (some x) at allowed).2 (e ∙ (label_by_acl j none at' allowed).1)))
      same (some x) (some q) at at' = ap some (
          sym (label_by_acl i (some x) at allowed).1
          ∙ (e ∙ (label_by_acl j (some q) at' allowed).1))

  pub view_named : String → Option String → Option UpdatePersist
  view_named origin none = none
  view_named origin (some name) = view_of net a origin name

  pub matching_view-name :
      (origin : String) (i : Ip)
      → matching_view net a origin (some i) ≡ view_named origin (name_of (match_acl net a (some i)))
  unfolding matching_view view_named
  matching_view-name origin i = by_acl (match_acl net a (some i)) refl
    where
      by_acl :
          (o : Option Acl)
          → match_acl net a (some i) ≡ o
          → matching_view net a origin (some i)
            ≡ view_named origin (name_of (match_acl net a (some i)))
      by_acl none e = rw (e, matching_view, view_named) refl
      by_acl (some acl) e = rw (e, matching_view, view_named) refl
