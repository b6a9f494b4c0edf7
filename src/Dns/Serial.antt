-- ===== src/Dns/Serial.antt =====
-- Serial number arithmetic (RFC 1982), which three plugins write in three ways:
-- serialGreater in dns-update-persistent/zone.go, serialNewer in ixfr/journal.go, less in
-- secondary-persistent/transfer.go. Serials are uint32, below 2 ^ 32.
use coredns_ez.Prelude.{
  ℕ, ◌+◌, ◌-◌, ◌%◌, ◌^◌, ◌<◌, ◌≡◌, ◌≢◌, Bool, true, false, not, ◌&&◌, ◌||◌, arith, ltb, leb, ◌==◌,
  nat_tests, if◌then◌else◌,
}

abbrev pub u32_mod : ℕ
u32_mod = 2 ^ 32

-- uint32 subtraction wraps
abbrev pub sub32 : ℕ → ℕ → ℕ
sub32 a b = (a + u32_mod - b) % u32_mod

unfoldable pub serial_greater : ℕ → ℕ → Bool
serial_greater a b =
    not (a == b) && ((ltb a b && ltb (2 ^ 31) (sub32 b a)) || (ltb b a && ltb (sub32 a b) (2 ^ 31)))

-- `int32(w) > 0`: the bit pattern is positive when it is neither zero nor has its top bit set
abbrev int32_pos : ℕ → Bool
int32_pos w = ltb 0 w && ltb w (2 ^ 31)

unfoldable pub serial_newer : ℕ → ℕ → Bool
serial_newer a b = if a == b then false else int32_pos (sub32 a b)

abbrev pub max_serial_increment : ℕ
max_serial_increment = 2147483647

unfoldable pub less : ℕ → ℕ → Bool
less a b =
    if ltb a b then leb (sub32 b a) max_serial_increment else ltb max_serial_increment (sub32 a b)

-- The journal and the update plugin agree on which of two serials is newer.
pub serial_newer-serial_greater :
    (a b : ℕ) → a < u32_mod → b < u32_mod → serial_newer a b ≡ serial_greater a b
unfolding serial_newer serial_greater
serial_newer-serial_greater a b ha hb = ground arith

-- The secondary's `less` is the same order, except at the distance 2 ^ 31, which RFC 1982 leaves
-- undefined.
less-serial_greater :
    (a b : ℕ) → a < u32_mod → b < u32_mod → sub32 a b ≢ 2 ^ 31 → less a b ≡ serial_greater b a
unfolding less serial_greater
less-serial_greater a b ha hb h = ground arith

pub serial_greater-asym :
    (a b : ℕ) → a < u32_mod → b < u32_mod → serial_greater a b ≡ true → serial_greater b a ≡ false
unfolding serial_greater
serial_greater-asym a b ha hb h = ground arith

-- A serial bumped by one, wrap-around included, is the newer one.
pub bump-serial_greater : (a : ℕ) → a < u32_mod → serial_greater ((a + 1) % u32_mod) a ≡ true
unfolding serial_greater
bump-serial_greater a h = ground arith
