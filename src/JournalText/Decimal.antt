-- ===== src/JournalText/Decimal.antt =====
-- Decimal numerals: fmt's %d and strconv.ParseUint(s, 10, 32).
use coredns_ez.Prelude.{
  ℕ, zero, suc, ◌+◌, ◌-◌, ◌*◌, ◌/◌, ◌%◌, ◌≡◌, refl, Option, none, some, List, [], ◌∷◌, ltb, leb,
  nat_tests, ◌&&◌, if◌then◌else◌,
}
use coredns_ez.Dns.Serial.{u32_mod}

-- The digits of `n` in front of `acc`; `n / 10 < n` makes fuel `n` enough.
unfoldable pub digits_from : ℕ → ℕ → List ℕ → List ℕ
digits_from zero n acc = (b'0' + n) ∷ acc
digits_from (suc fuel) n acc =
    let rest = digits_from fuel (n / 10) ((b'0' + n % 10) ∷ acc) in
    if ltb n 10 then (b'0' + n) ∷ acc else rest

unfoldable pub decimal : ℕ → List ℕ
unfolding digits_from
decimal n = digits_from n n []

unfoldable pub parse_digits : ℕ → List ℕ → Option ℕ
parse_digits n [] = some n
parse_digits n (c ∷ cs) =
    let rest = parse_digits (n * 10 + (c - b'0')) cs in
    if leb b'0' c && leb c b'9' then rest else none

unfoldable pub in_range : Option ℕ → Option ℕ
in_range none = none
in_range (some n) = if ltb n u32_mod then some n else none

-- Not empty, digits only, below 2 ^ 32.
unfoldable pub parse_uint : List ℕ → Option ℕ
unfolding parse_digits in_range
parse_uint [] = none
parse_uint (c ∷ cs) = in_range (parse_digits 0 (c ∷ cs))

test_decimal : parse_uint (decimal 4_294_967_295) ≡ some 4_294_967_295
unfolding parse_uint decimal
test_decimal = refl
