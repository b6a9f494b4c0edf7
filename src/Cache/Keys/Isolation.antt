-- ===== src/Cache/Keys/Isolation.antt =====
-- The text that hash (split-horizon-cache/cache.go) makes of the parts of a key.
use coredns_ez.Prelude.{
  ℕ, zero, suc, ◌^◌, ◌<◌, ◌≡◌, refl, ap, String, Bool, List, [], ◌∷◌, ◌++◌, length, length-append,
  arith,
}
use coredns_ez.Cache.Keys.{put_uint16, put_uint64, flag, bytes_of, hash_input}

append-left_cancel : (xs ys zs : List ℕ) → xs ++ ys ≡ xs ++ zs → ys ≡ zs
append-left_cancel [] ys zs e = e
append-left_cancel (x ∷ xs) ys zs e = append-left_cancel xs ys zs (cc e)

-- two texts with ends of one length
split_end :
    (xs ys us vs : List ℕ) → length us ≡ length vs → xs ++ us ≡ ys ++ vs → (xs ≡ ys) × (us ≡ vs)
split_end [] [] us vs l e = (refl, e)
split_end [] (y ∷ ys) us vs l e = absurd (omega (arith, l, ap length e, length-append {0} ys vs))
split_end (x ∷ xs) [] us vs l e = absurd (omega (arith, l, ap length e, length-append {0} xs us))
split_end (x ∷ xs) (y ∷ ys) us vs l e =
    let (heads, tails) = split_end xs ys us vs l (cc e) in (cc (e, heads), tails)

flag-injective : (a b : Bool) → flag a ≡ flag b → a ≡ b
flag-injective a b e = ground (arith, e)

at : ℕ → List ℕ → ℕ
at i [] = 0
at zero (x ∷ xs) = x
at (suc i) (x ∷ xs) = at i xs

put_uint16-injective :
    (m n : ℕ) (xs ys : List ℕ)
    → m < 2 ^ 16
    → n < 2 ^ 16
    → put_uint16 m ++ xs ≡ put_uint16 n ++ ys
    → (m ≡ n) × (xs ≡ ys)
unfolding at
put_uint16-injective m n xs ys hm hn e =
    (omega (arith, ap (at 0) e, ap (at 1) e), append-left_cancel (put_uint16 m) xs ys (cc e))

put_uint64-injective : (m n : ℕ) → m < 2 ^ 64 → n < 2 ^ 64 → put_uint64 m ≡ put_uint64 n → m ≡ n
unfolding at
put_uint64-injective m n hm hn e = omega (
  arith,
  ap (at 0) e,
  ap (at 1) e,
  ap (at 2) e,
  ap (at 3) e,
  ap (at 4) e,
  ap (at 5) e,
  ap (at 6) e,
  ap (at 7) e,
)

-- What is hashed for one name determines the rest: if it is the same for two questions about the
-- name, with 16-bit types and classes and 64-bit epochs, then type, class, the DO and CD bits, the
-- client's scope and the epoch are the same.
pub hash_input-injective :
    (qname : String) (t t' c c' : ℕ) (do_bit do_bit' cd cd' : Bool) (src src' : List ℕ)
    (epoch epoch' : ℕ)
    → t < 2 ^ 16
    → t' < 2 ^ 16
    → c < 2 ^ 16
    → c' < 2 ^ 16
    → epoch < 2 ^ 64
    → epoch' < 2 ^ 64
    → hash_input qname t c do_bit cd src epoch ≡ hash_input qname t' c' do_bit' cd' src' epoch'
    → (t ≡ t') × (c ≡ c') × (do_bit ≡ do_bit') × (cd ≡ cd') × (src ≡ src') × (epoch ≡ epoch')
unfolding hash_input at
hash_input-injective qname t t' c c' do_bit do_bit' cd cd' src src' epoch epoch' ht ht' hc hc' he
      he' e =
    let (types, from_class) = put_uint16-injective t t' _ _ ht ht' (cc e) in
    let (classes, from_name) = put_uint16-injective c c' _ _ hc hc' from_class in
    let from_src = append-left_cancel (bytes_of qname) _ _ from_name in
    let (srcs, ends) = split_end src src' (put_uint64 epoch) (put_uint64 epoch') refl from_src in
    (
      types,
      classes,
      flag-injective do_bit do_bit' (ap (at 0) e),
      flag-injective cd cd' (ap (at 1) e),
      srcs,
      put_uint64-injective epoch epoch' he he' ends,
    )
