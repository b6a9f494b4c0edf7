-- ===== src/Admin/Limiter.antt =====
-- admin/ratelimit.go: the rate limiter with one token bucket for each client. A bucket is a
-- *rate.Limiter of golang.org/x/time/rate, which is a parameter: a new one, and what Allow does at
-- a time. Times are in nanoseconds, and the map of clients is an association list.
pub mod Clients
use coredns_ez.Prelude.{
  ℕ, ◌-◌, String, Bool, true, false, not, Option, none, some, List, [], ◌∷◌, length, ltb, leb, keep,
  ◌==◌, ◌&&◌, text_tests, if◌then◌else◌,
}

abbrev pub limiter_idle_ttl : ℕ
limiter_idle_ttl = 300000000000

abbrev pub limiter_sweep_every : ℕ
limiter_sweep_every = 60000000000

abbrev pub limiter_sweep_min : ℕ
limiter_sweep_min = 1024

pub record LimiterEntry (L : Type 0) : Type 0 where
  pub lim : L
  pub last_seen : ℕ

pub record LimiterStore (L : Type 0) : Type 0 where
  pub entries : List (String × LimiterEntry L)
  pub cleaned : ℕ

unfoldable pub entry_of :
    {L : Type 0} → String → List (String × LimiterEntry L) → Option (LimiterEntry L)
entry_of key [] = none
entry_of key ((k, v) ∷ es) = if k == key then some v else entry_of key es

-- the assignment of an entry of the map
unfoldable pub set_entry :
    {L : Type 0}
    → String
    → LimiterEntry L
    → List (String × LimiterEntry L)
    → List (String × LimiterEntry L)
set_entry key e [] = (key, e) ∷ []
set_entry key e ((k, v) ∷ es) = if k == key then (key, e) ∷ es else (k, v) ∷ set_entry key e es

unfoldable pub is_idle : {L : Type 0} → ℕ → LimiterEntry L → Bool
is_idle now v = ltb limiter_idle_ttl (now - v.last_seen)

unfoldable pub sweep :
    {L : Type 0} → ℕ → List (String × LimiterEntry L) → List (String × LimiterEntry L)
sweep now [] = []
sweep now ((k, v) ∷ es) = let rest = sweep now es in if is_idle now v then rest else (k, v) ∷ rest

-- the eviction that a new client may trigger
unfoldable pub evict : {L : Type 0} → ℕ → LimiterStore L → LimiterStore L
evict now s =
    if leb limiter_sweep_min (length s.entries) && ltb limiter_sweep_every (now - s.cleaned)
    then record { entries = sweep now s.entries; cleaned = now }
    else s

-- `allow`, over a new bucket and the bucket's own Allow
unfoldable pub allow :
    {L : Type 0} → L → (ℕ → L → L × Bool) → ℕ → String → LimiterStore L → LimiterStore L × Bool
allow new_limiter take now key s = elim (entry_of key s.entries) [
  | some e ↦
      let (lim, granted) = take now e.lim in
      (
        record s { entries = set_entry key (record { lim = lim; last_seen = now }) s.entries },
        granted,
      )
  | none ↦
      let (lim, granted) = take now new_limiter in
      let s' = evict now s in
      (
        record s' { entries = set_entry key (record { lim = lim; last_seen = now }) s'.entries },
        granted,
      )
]
