-- ===== src/JournalText/Digits.antt =====
-- %d and ParseUint, one after the other.
use coredns_ez.Prelude.{
  ℕ, zero, suc, ◌+◌, ◌*◌, ◌/◌, ◌%◌, ◌≡◌, ◌≤◌, ◌<◌, refl, ap, ◌∙◌, some, List, [], ◌∷◌, All, length,
  if-cases, ltb, arith,
}
use coredns_ez.Dns.Serial.{u32_mod}
use coredns_ez.JournalText.Decimal.{digits_from, decimal, parse_digits, in_range, parse_uint}

abbrev pub IsDigit : ℕ → Type 0
IsDigit c = (48 ≤ c) × (c ≤ 57)

parse_digits-cons :
    (m d : ℕ) (cs : List ℕ)
    → d < 10
    → parse_digits m ((b'0' + d) ∷ cs) ≡ parse_digits (m * 10 + d) cs
unfolding parse_digits
parse_digits-cons m d cs h = ground (arith, h, ap (λ k. parse_digits k cs))

one_digit : (n : ℕ) (acc : List ℕ) → n < 10 → parse_digits 0 ((b'0' + n) ∷ acc) ≡ parse_digits n acc
one_digit n acc h = parse_digits-cons 0 n acc h ∙ ap (λ k. parse_digits k acc) (omega arith)

parse_digits-digits_from :
    (fuel n : ℕ) (acc : List ℕ)
    → n ≤ fuel
    → parse_digits 0 (digits_from fuel n acc) ≡ parse_digits n acc
unfolding digits_from
parse_digits-digits_from zero n acc h = one_digit n acc (omega (arith, h))
parse_digits-digits_from (suc fuel) n acc h =
    if-cases (λ l. parse_digits 0 l ≡ parse_digits n acc) (ltb n 10) ((b'0' + n) ∷ acc)
      (digits_from fuel (n / 10) ((b'0' + n % 10) ∷ acc)) (λ e. one_digit n acc (ground (arith, e)))
      (λ e.
        parse_digits-digits_from fuel (n / 10) ((b'0' + n % 10) ∷ acc) (ground (arith, e, h))
        ∙ parse_digits-cons (n / 10) (n % 10) acc (omega arith)
        ∙ ap (λ k. parse_digits k acc) (omega arith))

digits_from-IsDigit :
    (fuel n : ℕ) (acc : List ℕ) → n ≤ fuel → All IsDigit acc → All IsDigit (digits_from fuel n acc)
unfolding digits_from
digits_from-IsDigit zero n acc h a = ((omega (arith, h), omega (arith, h)), a)
digits_from-IsDigit (suc fuel) n acc h a =
    if-cases (All IsDigit) (ltb n 10) ((b'0' + n) ∷ acc)
      (digits_from fuel (n / 10) ((b'0' + n % 10) ∷ acc))
      (λ e. ((omega arith, ground (arith, e)), a))
      (λ e.
        digits_from-IsDigit fuel (n / 10) ((b'0' + n % 10) ∷ acc) (ground (arith, e, h))
          ((omega arith, omega arith), a))

digits_from-full : (fuel n : ℕ) (acc : List ℕ) → 1 ≤ length (digits_from fuel n acc)
unfolding digits_from
digits_from-full zero n acc = omega arith
digits_from-full (suc fuel) n acc =
    if-cases (λ l. 1 ≤ length l) (ltb n 10) ((b'0' + n) ∷ acc)
      (digits_from fuel (n / 10) ((b'0' + n % 10) ∷ acc)) (λ _. omega arith)
      (λ _. digits_from-full fuel (n / 10) ((b'0' + n % 10) ∷ acc))

pub decimal-IsDigit : (n : ℕ) → All IsDigit (decimal n)
unfolding decimal
decimal-IsDigit n = digits_from-IsDigit n n [] (omega arith) tt

pub decimal-full : (n : ℕ) → 1 ≤ length (decimal n)
unfolding decimal
decimal-full n = digits_from-full n n []

parse_uint-full : (t : List ℕ) → 1 ≤ length t → parse_uint t ≡ in_range (parse_digits 0 t)
unfolding parse_uint
parse_uint-full [] h = ground (arith, h)
parse_uint-full (c ∷ cs) h = refl

-- A 32-bit number that was printed is read back as itself.
pub parse_uint-decimal : (n : ℕ) → n < u32_mod → parse_uint (decimal n) ≡ some n
unfolding decimal in_range parse_digits
parse_uint-decimal n h =
    parse_uint-full (digits_from n n []) (digits_from-full n n [])
    ∙ ap in_range (parse_digits-digits_from n n [] (omega arith))
    ∙ ground (arith, h)

abbrev pow10 : ℕ → ℕ
pow10 zero = 1
pow10 (suc k) = 10 * pow10 k

digits_from-short :
    (k fuel n : ℕ) (acc : List ℕ)
    → n < pow10 (suc k)
    → length (digits_from fuel n acc) ≤ suc k + length acc
unfolding digits_from
digits_from-short k zero n acc h = omega arith
digits_from-short zero (suc fuel) n acc h =
    if-cases (λ l. length l ≤ 1 + length acc) (ltb n 10) ((b'0' + n) ∷ acc)
      (digits_from fuel (n / 10) ((b'0' + n % 10) ∷ acc)) (λ _. omega arith)
      (λ e. ground (arith, e, h))
digits_from-short (suc k) (suc fuel) n acc h =
    if-cases (λ l. length l ≤ suc (suc k) + length acc) (ltb n 10) ((b'0' + n) ∷ acc)
      (digits_from fuel (n / 10) ((b'0' + n % 10) ∷ acc)) (λ _. omega arith)
      (λ _.
        omega (arith, digits_from-short k fuel (n / 10) ((b'0' + n % 10) ∷ acc) (omega (arith, h))))

pub decimal-short : (n : ℕ) → n < u32_mod → length (decimal n) ≤ 10
unfolding decimal
decimal-short n h = omega (arith, digits_from-short 9 n n [] (omega (arith, h)))
