-- ===== src/Tests/Limiters.antt =====
-- A limiter with buckets that hold one request each.
use coredns_ez.Prelude.{
  ℕ, ◌-◌, ◌≡◌, refl, Bool, false, some, [], ◌∷◌, arith, eq_iff, text_tests, ltb,
}
use coredns_ez.Admin.Limiter.{LimiterEntry, LimiterStore, entry_of, is_idle, allow}
use coredns_ez.Admin.Limiter.Clients.{allow-others}

abbrev take1 : ℕ → ℕ → ℕ × Bool
take1 now tokens = (tokens - 1, ltb 0 tokens)

abbrev seen1 : LimiterEntry ℕ
seen1 = record { lim = 1; last_seen = 50 }

abbrev limiter1 : LimiterStore ℕ
limiter1 = record { entries = ("192.0.2.1", seen1) ∷ []; cleaned = 0 }

found1 : entry_of "192.0.2.1" limiter1.entries ≡ some seen1
unfolding entry_of
found1 = refl

active1 : is_idle 60 seen1 ≡ false
unfolding is_idle
active1 = refl

allow-others_example :
    entry_of "192.0.2.1" (allow 1 take1 60 "192.0.2.2" limiter1).0.entries ≡ some seen1
allow-others_example =
    allow-others 1 take1 60 "192.0.2.2" "192.0.2.1" seen1 limiter1
      (λ e. ground (arith, (eq_iff "192.0.2.2" "192.0.2.1").1 e)) found1 active1
