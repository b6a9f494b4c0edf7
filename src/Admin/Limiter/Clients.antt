-- ===== src/Admin/Limiter/Clients.antt =====
-- allow (admin/ratelimit.go): the buckets of clients other than the one that asks.
use coredns_ez.Prelude.{
  ℕ, ◌≡◌, ◌≢◌, refl, String, Bool, false, Option, none, some, List, [], ◌∷◌, ◌==◌, text_tests,
  arith, eq_iff, if◌then◌else◌,
}
use coredns_ez.Admin.Limiter.{
  LimiterEntry, LimiterStore, entry_of, set_entry, is_idle, sweep, evict, allow,
}

module _ {L : Type 0} where
  entry_of-set_entry :
      (key k : String) (e : LimiterEntry L) (es : List (String × LimiterEntry L))
      → entry_of k (set_entry key e es) ≡ (if key == k then some e else entry_of k es)
  unfolding entry_of set_entry
  entry_of-set_entry key k e [] = ground arith
  entry_of-set_entry key k e ((j, v) ∷ es) =
      ground (arith, entry_of-set_entry key k e es, eq_iff j key, eq_iff j k, eq_iff key k)

  entry_of-sweep :
      (now : ℕ) (k : String) (v : LimiterEntry L) (es : List (String × LimiterEntry L))
      → entry_of k es ≡ some v
      → is_idle now v ≡ false
      → entry_of k (sweep now es) ≡ some v
  unfolding entry_of sweep
  entry_of-sweep now k v [] q a = ground (arith, q)
  entry_of-sweep now k v ((j, w) ∷ es) q a =
      ground (arith, entry_of-sweep now k v es, q, a, eq_iff j k)

  entry_of-evict :
      (now : ℕ) (k : String) (v : LimiterEntry L) (s : LimiterStore L)
      → entry_of k s.entries ≡ some v
      → is_idle now v ≡ false
      → entry_of k (evict now s).entries ≡ some v
  unfolding evict
  entry_of-evict now k v s q a = ground (arith, entry_of-sweep now k v s.entries q a, q)

  -- A client that was seen within the idle time keeps its bucket and its time, whatever another
  -- client asks for, even if that one is new and causes the idle clients to be evicted.
  pub allow-others :
      (new_limiter : L) (take : ℕ → L → L × Bool) (now : ℕ) (key k : String) (v : LimiterEntry L)
      (s : LimiterStore L)
      → key ≢ k
      → entry_of k s.entries ≡ some v
      → is_idle now v ≡ false
      → entry_of k (allow new_limiter take now key s).0.entries ≡ some v
  unfolding allow
  allow-others new_limiter take now key k v s differ q a = split (entry_of key s.entries) refl
    where
      split :
          (o : Option (LimiterEntry L))
          → entry_of key s.entries ≡ o
          → entry_of k (allow new_limiter take now key s).0.entries ≡ some v
      split (some e) p =
          rw (p, allow) ground
            (
              arith,
              differ,
              q,
              eq_iff key k,
              entry_of-set_entry key k (record { lim = (take now e.lim).0; last_seen = now })
                  s.entries,
            )
      split none p =
          rw (p, allow) ground
            (
              arith,
              differ,
              entry_of-evict now k v s q a,
              eq_iff key k,
              entry_of-set_entry key k (record { lim = (take now new_limiter).0; last_seen = now })
                  (evict now s).entries,
            )
