-- ===== src/Cache/Keys/Buckets.antt =====
-- bucketOf (split-horizon-cache/cache.go): the bits of a client's address in its part of the key.
use Prim.Native.Nat.{min}
use coredns_ez.Prelude.{
  ℕ, zero, suc, ◌-◌, ◌*◌, ◌/◌, ◌%◌, ◌^◌, ◌<◌, ◌≡◌, ◌↔◌, refl, sym, ap, ◌∙◌, String, Option, some,
  List, [], ◌∷◌, ◌++◌, length, length-append, take, All, arith, leb, if◌then◌else◌,
}
use coredns_ez.Cachegen.{Ip, v4, v6}
use coredns_ez.Cache.Keys.{Masks, mask_bytes, bucket_of}

abbrev pub bits : List ℕ → List ℕ
bits [] = []
bits (b ∷ bs) =
    b / 128 % 2
    ∷ b / 64 % 2
    ∷ b / 32 % 2
    ∷ b / 16 % 2
    ∷ b / 8 % 2
    ∷ b / 4 % 2
    ∷ b / 2 % 2
    ∷ b % 2
    ∷ bits bs

abbrev pub IsByte : ℕ → Type 0
IsByte b = b < 256

at : ℕ → List ℕ → ℕ
at i [] = 0
at zero (x ∷ xs) = x
at (suc i) (x ∷ xs) = at i xs

at-take : (i n : ℕ) (xs ys : List ℕ) → i < n → take n xs ≡ take n ys → at i xs ≡ at i ys
unfolding at
at-take i zero xs ys h e = absurd (omega arith)
at-take i (suc n) [] [] h e = refl
at-take i (suc n) [] (y ∷ ys) h e = absurd (cc e)
at-take i (suc n) (x ∷ xs) [] h e = absurd (cc e)
at-take zero (suc n) (x ∷ xs) (y ∷ ys) h e = cc e
at-take (suc i) (suc n) (x ∷ xs) (y ∷ ys) h e = at-take i n xs ys (omega arith) (cc e)

-- a byte with all but its first bits cleared
abbrev masked : ℕ → ℕ → ℕ
masked n b = if leb 8 n then b else b / 2 ^ (8 - n) * 2 ^ (8 - n)

cons_same : {x y : ℕ} {xs ys : List ℕ} → x ≡ y → xs ≡ ys → ◌≡◌ {A = List ℕ} (x ∷ xs) (y ∷ ys)
cons_same p q = cc (p, q)

-- The first bits determine the masked byte.
masked-same :
    (n x y : ℕ) (xs ys : List ℕ)
    → x < 256
    → y < 256
    → ((i : ℕ) → i < n → at i (bits (x ∷ xs)) ≡ at i (bits (y ∷ ys)))
    → masked n x ≡ masked n y
unfolding at
masked-same zero x y xs ys p q h = omega arith
masked-same (suc zero) x y xs ys p q h = omega (arith, h 0 (omega arith))
masked-same (suc (suc zero)) x y xs ys p q h = omega (arith, h 0 (omega arith), h 1 (omega arith))
masked-same (suc (suc (suc zero))) x y xs ys p q h =
    omega (arith, h 0 (omega arith), h 1 (omega arith), h 2 (omega arith))
masked-same (suc (suc (suc (suc zero)))) x y xs ys p q h =
    omega (arith, h 0 (omega arith), h 1 (omega arith), h 2 (omega arith), h 3 (omega arith))
masked-same (suc (suc (suc (suc (suc zero))))) x y xs ys p q h = omega (
  arith,
  h 0 (omega arith),
  h 1 (omega arith),
  h 2 (omega arith),
  h 3 (omega arith),
  h 4 (omega arith),
)
masked-same (suc (suc (suc (suc (suc (suc zero)))))) x y xs ys p q h = omega (
  arith,
  h 0 (omega arith),
  h 1 (omega arith),
  h 2 (omega arith),
  h 3 (omega arith),
  h 4 (omega arith),
  h 5 (omega arith),
)
masked-same (suc (suc (suc (suc (suc (suc (suc zero))))))) x y xs ys p q h = omega (
  arith,
  h 0 (omega arith),
  h 1 (omega arith),
  h 2 (omega arith),
  h 3 (omega arith),
  h 4 (omega arith),
  h 5 (omega arith),
  h 6 (omega arith),
)
masked-same (suc (suc (suc (suc (suc (suc (suc (suc n)))))))) x y xs ys p q h = ground (
  arith,
  h 0 (omega arith),
  h 1 (omega arith),
  h 2 (omega arith),
  h 3 (omega arith),
  h 4 (omega arith),
  h 5 (omega arith),
  h 6 (omega arith),
  h 7 (omega arith),
)

-- Masking keeps the first bits.
masked-bits :
    (n b : ℕ) (xs ys : List ℕ)
    → b < 256
    → take (n - 8) (bits xs) ≡ take (n - 8) (bits ys)
    → take n (bits (masked n b ∷ xs)) ≡ take n (bits (b ∷ ys))
masked-bits zero b xs ys p e = refl
masked-bits (suc zero) b xs ys p e = cons_same (omega arith) refl
masked-bits (suc (suc zero)) b xs ys p e = (cons_same (omega arith) (cons_same (omega arith) refl))
masked-bits (suc (suc (suc zero))) b xs ys p e =
    (cons_same (omega arith) (cons_same (omega arith) (cons_same (omega arith) refl)))
masked-bits (suc (suc (suc (suc zero)))) b xs ys p e =
    (cons_same (omega arith)
      (cons_same (omega arith) (cons_same (omega arith) (cons_same (omega arith) refl))))
masked-bits (suc (suc (suc (suc (suc zero))))) b xs ys p e =
    (cons_same (omega arith) (
      cons_same (omega arith)
        (cons_same (omega arith) (cons_same (omega arith) (cons_same (omega arith) refl)))))
masked-bits (suc (suc (suc (suc (suc (suc zero)))))) b xs ys p e =
    (cons_same (omega arith) (
      cons_same (omega arith) (
        cons_same (omega arith)
          (cons_same (omega arith) (cons_same (omega arith) (cons_same (omega arith) refl))))))
masked-bits (suc (suc (suc (suc (suc (suc (suc zero))))))) b xs ys p e =
    (cons_same (omega arith) (
      cons_same (omega arith) (
        cons_same (omega arith) (
          cons_same (omega arith)
            (cons_same (omega arith) (cons_same (omega arith) (cons_same (omega arith) refl)))))))
masked-bits (suc (suc (suc (suc (suc (suc (suc (suc n)))))))) b xs ys p e =
    let whole : masked (suc (suc (suc (suc (suc (suc (suc (suc n)))))))) b ≡ b = ground arith in
    let rest : (suc (suc (suc (suc (suc (suc (suc (suc n)))))))) - 8 ≡ n = omega arith in
    let e' : take n (bits xs) ≡ take n (bits ys) = rw (← rest) e in rw whole (cc e')

take-drop8 :
    (n : ℕ) (b : ℕ) (xs ys : List ℕ) (c : ℕ)
    → take n (bits (b ∷ xs)) ≡ take n (bits (c ∷ ys))
    → take (n - 8) (bits xs) ≡ take (n - 8) (bits ys)
take-drop8 zero b xs ys c e = refl
take-drop8 (suc zero) b xs ys c e = refl
take-drop8 (suc (suc zero)) b xs ys c e = refl
take-drop8 (suc (suc (suc zero))) b xs ys c e = refl
take-drop8 (suc (suc (suc (suc zero)))) b xs ys c e = refl
take-drop8 (suc (suc (suc (suc (suc zero))))) b xs ys c e = refl
take-drop8 (suc (suc (suc (suc (suc (suc zero)))))) b xs ys c e = refl
take-drop8 (suc (suc (suc (suc (suc (suc (suc zero))))))) b xs ys c e = refl
take-drop8 (suc (suc (suc (suc (suc (suc (suc (suc n)))))))) b xs ys c e =
    let rest : (suc (suc (suc (suc (suc (suc (suc (suc n)))))))) - 8 ≡ n = omega arith in
    rw rest (cc e)

mask_bytes-same :
    (n : ℕ) (xs ys : List ℕ)
    → length xs ≡ length ys
    → All IsByte xs
    → All IsByte ys
    → take n (bits xs) ≡ take n (bits ys)
    → mask_bytes n xs ≡ mask_bytes n ys
unfolding mask_bytes
mask_bytes-same n [] [] l p q e = refl
mask_bytes-same n [] (y ∷ ys) l p q e = absurd (omega (arith, l))
mask_bytes-same n (x ∷ xs) [] l p q e = absurd (omega (arith, l))
mask_bytes-same n (x ∷ xs) (y ∷ ys) l p q e =
    cons_same
      (masked-same n x y xs ys p.0 q.0 (λ i h. at-take i n (bits (x ∷ xs)) (bits (y ∷ ys)) h e))
      (mask_bytes-same (n - 8) xs ys (omega (arith, l)) p.1 q.1 (take-drop8 n x xs ys y e))

mask_bytes-bits :
    (n : ℕ) (xs : List ℕ) → All IsByte xs → take n (bits (mask_bytes n xs)) ≡ take n (bits xs)
unfolding mask_bytes
mask_bytes-bits n [] p = refl
mask_bytes-bits n (x ∷ xs) p =
    masked-bits n x (mask_bytes (n - 8) xs) xs p.0 (mask_bytes-bits (n - 8) xs p.1)

length-mask_bytes : (n : ℕ) (xs : List ℕ) → length (mask_bytes n xs) ≡ length xs
unfolding mask_bytes
length-mask_bytes n [] = refl
length-mask_bytes n (x ∷ xs) = omega (arith, length-mask_bytes (n - 8) xs)

drop_last : (xs ys : List ℕ) (m : ℕ) → xs ++ m ∷ [] ≡ ys ++ m ∷ [] → xs ≡ ys
drop_last [] [] m e = refl
drop_last [] (y ∷ ys) m e = absurd (omega (arith, ap length e, length-append {0} ys (m ∷ [])))
drop_last (x ∷ xs) [] m e = absurd (omega (arith, ap length e, length-append {0} xs (m ∷ [])))
drop_last (x ∷ xs) (y ∷ ys) m e = cons_same (cc e) (drop_last xs ys m (cc e))

-- what net.ParseIP and To4 give
abbrev pub IsAddress : Ip → Type 0
IsAddress (v4 ip) = (length ip ≡ 4) × All IsByte ip
IsAddress (v6 ip) = (length ip ≡ 16) × All IsByte ip

-- the first bits of two addresses of one family are the same
abbrev pub SameNetwork : Masks → Ip → Ip → Type 0
SameNetwork masks (v4 a) (v4 b) =
    take (min masks.mask4 32) (bits a) ≡ take (min masks.mask4 32) (bits b)
SameNetwork masks (v6 a) (v6 b) =
    take (min masks.mask6 128) (bits a) ≡ take (min masks.mask6 128) (bits b)
SameNetwork masks (v4 a) (v6 b) = ⊥
SameNetwork masks (v6 a) (v4 b) = ⊥

bucket : Masks → Ip → List ℕ
bucket masks (v4 ip) = mask_bytes (min masks.mask4 32) ip ++ (min masks.mask4 32 % 256 ∷ [])
bucket masks (v6 ip) = mask_bytes (min masks.mask6 128) ip ++ (min masks.mask6 128 % 256 ∷ [])

network_iff :
    (n m : ℕ) (a b : List ℕ)
    → length a ≡ length b
    → All IsByte a
    → All IsByte b
    → (mask_bytes n a ++ m ∷ [] ≡ mask_bytes n b ++ m ∷ []) ↔ (take n (bits a) ≡ take n (bits b))
network_iff n m a b l p q = (
  λ e.
      sym (mask_bytes-bits n a p)
      ∙ ap (λ x. take n (bits x)) (drop_last (mask_bytes n a) (mask_bytes n b) m e)
      ∙ mask_bytes-bits n b q,
  λ e. ap (λ x. x ++ m ∷ []) (mask_bytes-same n a b l p q e),
)

-- an IPv4 bucket has five bytes, and an IPv6 bucket seventeen
families-differ :
    (n k m j : ℕ) (a b : List ℕ)
    → length a ≡ 4
    → length b ≡ 16
    → mask_bytes n a ++ m ∷ [] ≡ mask_bytes k b ++ j ∷ []
    → ⊥
families-differ n k m j a b la lb e = omega (
  arith,
  ap length e,
  length-append {0} (mask_bytes n a) (m ∷ []),
  length-append {0} (mask_bytes k b) (j ∷ []),
  length-mask_bytes n a,
  length-mask_bytes k b,
)

bucket_iff :
    (masks : Masks) (a b : Ip)
    → IsAddress a
    → IsAddress b
    → (bucket masks a ≡ bucket masks b) ↔ SameNetwork masks a b
unfolding bucket
bucket_iff masks (v4 a) (v4 b) p q = network_iff _ _ a b (p.0 ∙ sym q.0) p.1 q.1
bucket_iff masks (v6 a) (v6 b) p q = network_iff _ _ a b (p.0 ∙ sym q.0) p.1 q.1
bucket_iff masks (v4 a) (v6 b) p q = (families-differ _ _ _ _ a b p.0 q.0, λ e. absurd e)
bucket_iff masks (v6 a) (v4 b) p q =
    (λ e. families-differ _ _ _ _ b a q.0 p.0 (sym e), λ e. absurd e)

module _ (parse_ip : String → Option Ip) (masks : Masks) (remote : String) (a : Ip) where
  bucket_of-bucket : parse_ip remote ≡ some a → bucket_of parse_ip masks remote ≡ bucket masks a
  unfolding bucket_of bucket
  bucket_of-bucket e = split a e
    where
      split : (a : Ip) → parse_ip remote ≡ some a → bucket_of parse_ip masks remote ≡ bucket masks a
      split (v4 ip) e = rw (e, bucket_of)
      split (v6 ip) e = rw (e, bucket_of)

-- Two clients whose addresses parse, to 4 or 16 bytes, have the same bucket exactly if the
-- addresses are of one family and agree in the bits that the prefix length of the family selects.
pub bucket_of_iff :
    (parse_ip : String → Option Ip) (masks : Masks) (remote remote' : String) (a b : Ip)
    → parse_ip remote ≡ some a
    → parse_ip remote' ≡ some b
    → IsAddress a
    → IsAddress b
    → (bucket_of parse_ip masks remote ≡ bucket_of parse_ip masks remote') ↔ SameNetwork masks a b
bucket_of_iff parse_ip masks remote remote' a b e f p q =
    rw (bucket_of-bucket parse_ip masks remote a e, bucket_of-bucket parse_ip masks remote' b f)
      (bucket_iff masks a b p q)
