-- ===== src/Cache/Lookup/Hits.antt =====
-- getIfNotStale and exists (split-horizon-cache/handler.go): where the item of a hit stands, and
-- what it matches.
use coredns_ez.Prelude.{
  ℕ, ◌≡◌, ◌<◌, ◌/◌, ◌+◌, ◌⊎◌, ℤ, pos_part, neg_part, refl, ap, ◌∙◌, inl, inr, true, false, Option,
  none, some, ◌&&◌, ltb, arith, nat_tests, Bool-cases, if_some,
}
use coredns_ez.Cache.Message.{rcode_server_failure}
use coredns_ez.Cache.Item.{
  second, is_positive, Request, Item, content, last_known_good, ttl_at, matches, answering_item,
}
use coredns_ez.Cache.Item.Answering.{answering_item-from}
use coredns_ez.Cache.State.{Library, Config, Cache}
use coredns_ez.Cache.Lookup.{
  is_live, if_answering, preferred, if_live, behind_failure, denied, lookup,
}

-- A TTL that is not used up, or one that was used up less than the time ago for which it is served
-- stale.
pub data InTime (c : Config) (t : ℤ) : Type 0 where
  fresh : 0 < pos_part t → InTime c t
  stale : 0 < c.stale_up_to → neg_part t < c.stale_up_to / second + pos_part t → InTime c t

is_live-InTime : (c : Config) (t : ℤ) → is_live c t ≡ true → InTime c t
unfolding is_live
is_live-InTime c t e = elim (Bool-cases (is_positive t)) [
  | inl p ↦ fresh (ground (arith, p))
  | inr p ↦ stale (ground (arith, p, e)) (ground (arith, p, e))
]

module _ (lib : Library) where
  open lib use {get}

  -- where an item stands for a key: in one of the two caches, or kept by an item of the positive
  -- one
  pub data Found (s : Cache lib) (k : ℕ) (i : Item) : Type 0 where
    in_ncache : get k s.ncache ≡ some i → Found s k i
    in_pcache : get k s.pcache ≡ some i → Found s k i
    kept_by : (j : Item) → get k s.pcache ≡ some j → last_known_good j ≡ some i → Found s k i

  pub record Fits (c : Config) (q : Request) (now : ℕ) (i : Item) : Type 0 where
    pub matching : matches (content i) q ≡ true
    pub live : is_live c (ttl_at (content i) now) ≡ true

  if_live-Fits :
      (c : Config) (q : Request) (now : ℕ) (o : Option Item) (i : Item)
      → if_live lib c q now o ≡ some i
      → (o ≡ some i) × Fits c q now i
  unfolding if_live
  if_live-Fits c q now none i e = ground (arith, e)
  if_live-Fits c q now (some j) i e = elim (if_some _ j none i e) [
    | inl (t, same) ↦
        rw (← same) (refl, record { matching = ground (arith, t); live = ground (arith, t) })
    | inr (f, no_item) ↦ absurd (cc no_item)
  ]

  denied-from :
      (n p : Option Item) (i : Item) → denied lib n p ≡ some i → (n ≡ some i) ⊎ (p ≡ some i)
  unfolding denied behind_failure
  denied-from none p i e = inr e
  denied-from (some d) none i e = inl e
  denied-from (some d) (some p) i e = elim (if_some _ p (some d) i e) [
    | inl (t, same) ↦ inr (ap some same)
    | inr (f, same) ↦ inl same
  ]

  if_answering-live :
      (c : Config) (now : ℕ) (o : Option Item) (i : Item)
      → ltb 0 c.stale_up_to ≡ true
      → if_answering lib c now o ≡ some i
      → (o ≡ some i) × (is_live c (ttl_at (content i) now) ≡ true)
  unfolding if_answering is_live
  if_answering-live c now none i h e = ground (arith, e)
  if_answering-live c now (some j) i h e = elim (if_some _ j none i e) [
    | inl (t, same) ↦ rw (← same) (refl, ground (arith, t, h))
    | inr (f, no_item) ↦ absurd (cc no_item)
  ]

  preferred-Fits :
      (c : Config) (q : Request) (now : ℕ) (o : Option Item) (i : Item)
      → ltb 0 c.stale_up_to ≡ true
      → preferred lib c q now o ≡ some i
      → ((j : Item) × (o ≡ some j) × ((j ≡ i) ⊎ (last_known_good j ≡ some i))) × Fits c q now i
  unfolding preferred
  preferred-Fits c q now none i h e = ground (arith, e)
  preferred-Fits c q now (some j) i h e =
      let (answering, alive) = if_answering-live c now (answering_item j q) i h e in
      let (from, matching) = answering_item-from j q i answering in
      ((j, refl, from), record { matching = matching; live = alive })

  usual-Found :
      (k now : ℕ) (q : Request) (s : Cache lib) (i : Item)
      → denied lib
          (if_live lib s.config q now (get k s.ncache))
          (if_live lib s.config q now (get k s.pcache))
        ≡ some i
      → Found s k i × Fits s.config q now i
  usual-Found k now q s i e = elim (denied-from _ _ i e) [
    | inl n ↦
        let (from, fits) = if_live-Fits s.config q now (get k s.ncache) i n in
        (in_ncache from, fits)
    | inr p ↦
        let (from, fits) = if_live-Fits s.config q now (get k s.pcache) i p in
        (in_pcache from, fits)
  ]

  pcache-Found :
      (s : Cache lib) (k : ℕ) (i : Item)
      → ((j : Item) × (get k s.pcache ≡ some j) × ((j ≡ i) ⊎ (last_known_good j ≡ some i)))
      → Found s k i
  pcache-Found s k i (j, at, inl same) = in_pcache (at ∙ ap some same)
  pcache-Found s k i (j, at, inr kept) = kept_by j at kept

  lookup-Fits :
      (k now : ℕ) (q : Request) (s : Cache lib) (i : Item)
      → lookup lib k now q s ≡ some i
      → Found s k i × Fits s.config q now i
  unfolding lookup
  lookup-Fits k now q s i e =
      elim (Bool-cases (s.config.prefer_positive && ltb 0 s.config.stale_up_to)) [
        | inl on ↦ split (preferred lib s.config q now (get k s.pcache)) refl on
        | inr off ↦ usual-Found k now q s i (rw (← usual off) e)
      ]
    where
      usual :
          (s.config.prefer_positive && ltb 0 s.config.stale_up_to) ≡ false
          → lookup lib k now q s
            ≡ denied lib
                (if_live lib s.config q now (get k s.ncache))
                (if_live lib s.config q now (get k s.pcache))
      usual off = rw off

      split :
          (o : Option Item)
          → preferred lib s.config q now (get k s.pcache) ≡ o
          → (s.config.prefer_positive && ltb 0 s.config.stale_up_to) ≡ true
          → Found s k i × Fits s.config q now i
      split none p on = usual-Found k now q s i (ground (arith, e, p, on))
      split (some j) p on =
          let same : j ≡ i = ground (arith, e, p, on) in
          let (from, fits) =
            preferred-Fits s.config q now (get k s.pcache) j (ground (arith, on)) p in
          rw (← same) (pcache-Found s k j from, fits)

  -- An item that a lookup finds stands under the key in one of the two caches, or is kept by the
  -- positive one's item as the last good one; it has the name, type and class of the question; and
  -- its TTL is not used up, or it may be served stale and is not staler than that.
  pub lookup-Found :
      (k now : ℕ) (q : Request) (s : Cache lib) (i : Item)
      → lookup lib k now q s ≡ some i
      → Found s k i × (matches (content i) q ≡ true) × InTime s.config (ttl_at (content i) now)
  lookup-Found k now q s i e =
      let (found, fits) = lookup-Fits k now q s i e in
      (found, fits.matching, is_live-InTime s.config _ fits.live)

  -- Without prefer_positive, an unexpired SERVFAIL does not hide a positive item for the question
  -- that is live: the lookup finds the positive one.
  pub lookup-failure :
      (k now : ℕ) (q : Request) (s : Cache lib) (d p : Item)
      → s.config.prefer_positive ≡ false
      → get k s.ncache ≡ some d
      → (content d).rcode ≡ rcode_server_failure
      → get k s.pcache ≡ some p
      → Fits s.config q now p
      → lookup lib k now q s ≡ some p
  unfolding lookup if_live denied behind_failure
  lookup-failure k now q s d p off n r at fits =
      rw (n, at) (ground (arith, off, r, fits.matching, fits.live))

  -- a positive item is found where no denial stands
  pub lookup_positive :
      (k now : ℕ) (q : Request) (s : Cache lib) (p : Item)
      → s.config.prefer_positive ≡ false
      → get k s.ncache ≡ none
      → get k s.pcache ≡ some p
      → Fits s.config q now p
      → lookup lib k now q s ≡ some p
  unfolding lookup if_live denied
  lookup_positive k now q s p off n at fits =
      rw (n, at) (ground (arith, off, fits.matching, fits.live))
