-- ===== src/Zonereg/Index.antt =====
-- register and Unregister (internal/zonereg/zonereg.go): the names and the map of the registry.
use coredns_ez.Prelude.{
  ℕ, ◌≡◌, ◌≢◌, refl, ap, ◌∙◌, ◌⊎◌, inl, inr, ◌≤◌, String, Bool, true, false, not, Option, none,
  some, List, [], ◌∷◌, ◌++◌, keep, Bool-cases, count, count-append, arith, eq_iff, ◌==◌, text_tests,
  if◌then◌else◌,
}
use coredns_ez.Dns.{Dns}
use coredns_ez.Zonereg.{
  Kind, kind_none, Entry, Registry, put, origin_of, register, unregister, kind_of, lookup,
  RegisterError,
}

abbrev pub occurs : String → List String → ℕ
occurs n names = count (λ m. m == n) names

abbrev pub held {ℓ} : {E : Type ℓ} → Option E → ℕ
held none = 0
held (some e) = 1

pub data Op (P Q : Type 0) : Type 0 where
  registering : String → Entry P Q → Op P Q
  unregistering : String → Op P Q

occurs-removed :
    (n origin : String) (names : List String)
    → occurs n (keep (λ m. not (m == origin)) names) ≡ (if origin == n then 0 else occurs n names)
occurs-removed n origin [] = ground arith
occurs-removed n origin (m ∷ names) =
    ground (arith, occurs-removed n origin names, eq_iff m origin, eq_iff m n, eq_iff origin n)

-- what plugin.Zones.Matches promises: a zone of the list, or none
abbrev pub MatchesListed : (List String → String → String) → Type 0
MatchesListed matches =
    (names : List String) (qname : String)
    → (matches names qname ≡ "") ⊎ (1 ≤ occurs (matches names qname) names)

module _ {P Q : Type 0} where
  -- A name is listed once if the map has it, and not at all otherwise.
  abbrev pub Indexed : Registry P Q → Type 0
  Indexed r = (n : String) → occurs n r.names ≡ held (r.zones n)

  module _ ⦃dns : Dns⦄ where
    abbrev pub run : Op P Q → Registry P Q → Registry P Q
    run (registering name e) r = (register name e r).0
    run (unregistering name) r = unregister name r

    abbrev pub run_all : List (Op P Q) → Registry P Q → Registry P Q
    run_all [] r = r
    run_all (op ∷ ops) r = run_all ops (run op r)

    put-held :
        (origin n : String) (e : Option (Entry P Q)) (zones : String → Option (Entry P Q))
        → held (put origin e zones n) ≡ (if origin == n then held e else held (zones n))
    unfolding put
    put-held origin n e zones = ground arith

    register-Indexed :
        (name : String) (e : Entry P Q) (r : Registry P Q)
        → Indexed r
        → Indexed (register name e r).0
    unfolding register
    register-Indexed name e r i n =
        split (r.zones (origin_of name)) refl (Bool-cases (origin_of name == n))
      where
        origin : String
        origin = origin_of name

        split :
            (o : Option (Entry P Q))
            → r.zones origin ≡ o
            → ((origin == n) ≡ true) ⊎ ((origin == n) ≡ false)
            → occurs n (register name e r).0.names ≡ held ((register name e r).0.zones n)
        split (some old) q c = ground (arith, q, i n)
        split none q (inl c) = ground (
          arith,
          q,
          c,
          i n,
          i origin,
          put-held origin n (some e) r.zones,
          count-append (λ m. m == n) r.names (origin ∷ []),
          ap (λ m. occurs m r.names) ((eq_iff origin n).0 c),
        )
        split none q (inr c) = ground (
          arith,
          q,
          c,
          i n,
          put-held origin n (some e) r.zones,
          count-append (λ m. m == n) r.names (origin ∷ []),
        )

    unregister-Indexed :
        (name : String) (r : Registry P Q) → Indexed r → Indexed (unregister name r)
    unfolding unregister
    unregister-Indexed name r i n = split (r.zones (origin_of name)) refl
      where
        origin : String
        origin = origin_of name

        split :
            (o : Option (Entry P Q))
            → r.zones origin ≡ o
            → occurs n (unregister name r).names ≡ held ((unregister name r).zones n)
        split none q = ground (arith, q, i n)
        split (some old) q =
            ground (arith, q, i n, put-held origin n none r.zones, occurs-removed n origin r.names)

    run-Indexed : (op : Op P Q) (r : Registry P Q) → Indexed r → Indexed (run op r)
    run-Indexed (registering name e) r i = register-Indexed name e r i
    run-Indexed (unregistering name) r i = unregister-Indexed name r i

    -- Whatever zones are registered and unregistered, in whatever order: if at the start every name
    -- of the map is listed exactly once and no other name is listed, as in the empty registry, this
    -- is so afterwards.
    pub run_all-Indexed :
        (ops : List (Op P Q)) (r : Registry P Q) → Indexed r → Indexed (run_all ops r)
    run_all-Indexed [] r i = i
    run_all-Indexed (op ∷ ops) r i = run_all-Indexed ops (run op r) (run-Indexed op r i)

  -- If Matches returns a listed zone or none, and names and map agree, then a lookup that returns
  -- an origin returns one that is registered, with the kind it was registered with.
  pub lookup-held :
      (matches : List String → String → String) (qname : String) (r : Registry P Q)
      → MatchesListed matches
      → Indexed r
      → (lookup matches qname r ≡ ("", kind_none))
        ⊎ ((e : Entry P Q) × (r.zones (lookup matches qname r).0 ≡ some e)
            × ((lookup matches qname r).1 ≡ e.kind))
  unfolding lookup kind_of
  lookup-held matches qname r listed i =
      split (matches r.names qname == "") refl (r.zones (matches r.names qname)) refl
    where
      origin : String
      origin = matches r.names qname

      Found : String × Kind → Type 0
      Found l = (l ≡ ("", kind_none)) ⊎ ((e : Entry P Q) × (r.zones l.0 ≡ some e) × (l.1 ≡ e.kind))

      split :
          (b : Bool)
          → (origin == "") ≡ b
          → (o : Option (Entry P Q)) → r.zones origin ≡ o
          → Found (if b then ("", kind_none) else (origin, kind_of (r.zones origin)))
      split true q o z = inl refl
      split false q none z = ground (arith, q, z, listed r.names qname, i origin, eq_iff origin "")
      split false q (some e) z = inr (e, z, known z)
        where
          known : r.zones origin ≡ some e → kind_of (r.zones origin) ≡ e.kind
          known h = ap kind_of h

  module _ ⦃dns : Dns⦄ where
    put-same :
        (origin : String) (e : Option (Entry P Q)) (zones : String → Option (Entry P Q))
        → put origin e zones origin ≡ e
    unfolding put
    put-same origin e zones = ground (arith, eq_iff origin origin)

    put-other :
        (origin n : String) (e : Option (Entry P Q)) (zones : String → Option (Entry P Q))
        → origin ≢ n
        → put origin e zones n ≡ zones n
    unfolding put
    put-other origin n e zones d = ground (arith, d, eq_iff origin n)

    added : String → Entry P Q → Registry P Q → Registry P Q
    added name e r = record {
      zones = put (origin_of name) (some e) r.zones;
      names = r.names ++ origin_of name ∷ [];
    }

    register-taken :
        (name : String) (e old : Entry P Q) (r : Registry P Q)
        → (origin_of name == "") ≡ false
        → r.zones (origin_of name) ≡ some old
        → register name e r ≡ (r, some RegisterError.already_registered)
    unfolding register
    register-taken name e old r full q = rw (full, q) refl

    register-added :
        (name : String) (e : Entry P Q) (r : Registry P Q)
        → (register name e r).1 ≡ none
        → ((origin_of name == "") ≡ false) × (register name e r ≡ (added name e r, none))
    unfolding register added
    register-added name e r ok = split (origin_of name == "") refl (r.zones (origin_of name)) refl
      where
        split :
            (b : Bool)
            → (origin_of name == "") ≡ b
            → (o : Option (Entry P Q)) → r.zones (origin_of name) ≡ o
            → ((origin_of name == "") ≡ false) × (register name e r ≡ (added name e r, none))
        split true q o z = ground (arith, ok, q)
        split false q (some old) z = ground (arith, ok, q, z)
        split false q none z = (q, rw (q, z) refl)

    -- A registration that succeeds is found under its origin, changes no other, and blocks the next
    -- one for the same origin, which changes nothing.
    register-found :
        (name : String) (e e' : Entry P Q) (r : Registry P Q)
        → (register name e r).1 ≡ none
        → ((register name e r).0.zones (origin_of name) ≡ some e)
          × ((n : String) → origin_of name ≢ n → (register name e r).0.zones n ≡ r.zones n)
          × (register name e' (register name e r).0
              ≡ ((register name e r).0, some RegisterError.already_registered))
    unfolding added
    register-found name e e' r ok =
        let (full, new) = register-added name e r ok in
        let found =
          ap (λ x. x.0.zones (origin_of name)) new ∙ put-same (origin_of name) (some e) r.zones in
        (
          found,
          (λ n d. ap (λ x. x.0.zones n) new ∙ put-other (origin_of name) n (some e) r.zones d),
          register-taken name e' e (register name e r).0 full found,
        )
