-- ===== src/Cache/Keys.antt =====
-- split-horizon-cache/cache.go (key, bucketOf, hash) and keySrc of handler.go: under what an answer
-- is stored. A text is its bytes, which are its code points for names and labels in ASCII.
-- net.ParseIP is a parameter. hash/fnv's New64 is written out.
pub mod Isolation
pub mod Buckets
use Prim.Native.Nat.{bit_xor, min}
use Prim.Native.Char.{code}
use coredns_ez.Prelude.{
  ℕ, ◌+◌, ◌-◌, ◌*◌, ◌/◌, ◌%◌, ◌^◌, String, Bool, true, false, not, Option, none, some, List, [],
  ◌∷◌, ◌++◌, map, ◌&&◌, ◌||◌, leb, ◌==◌, text_tests, if◌then◌else◌,
}
use coredns_ez.Cachegen.{Ip, v4, v6, Gen, label}
use coredns_ez.Cache.Message.{
  Msg, Question, ResponseType, other_error, meta, update, name_error, no_error, has_soa, is_nodata,
  is_no_error,
}

abbrev pub bytes_of : String → List ℕ
bytes_of String.[] = []
bytes_of (String.◌∷◌ c s) = code c ∷ bytes_of s

-- hash/fnv, New64: multiply, then xor, on uint64
fnv_from : ℕ → List ℕ → ℕ
fnv_from h [] = h
fnv_from h (b ∷ bs) = fnv_from (bit_xor (h * 1099511628211 % 2 ^ 64) b) bs

unfoldable pub fnv64 : List ℕ → ℕ
unfolding fnv_from
fnv64 = fnv_from 14695981039346656037

-- binary.BigEndian
abbrev pub put_uint16 : ℕ → List ℕ
put_uint16 n = n / 256 % 256 ∷ n % 256 ∷ []

abbrev pub put_uint64 : ℕ → List ℕ
put_uint64 n =
    n / 2 ^ 56 % 256
    ∷ n / 2 ^ 48 % 256
    ∷ n / 2 ^ 40 % 256
    ∷ n / 2 ^ 32 % 256
    ∷ n / 2 ^ 24 % 256
    ∷ n / 2 ^ 16 % 256
    ∷ n / 256 % 256
    ∷ n % 256
    ∷ []

abbrev pub flag : Bool → ℕ
flag true = b'1'
flag false = b'0'

-- what hash writes, in its order
unfoldable pub hash_input : String → ℕ → ℕ → Bool → Bool → List ℕ → ℕ → List ℕ
hash_input qname qtype qclass do_bit cd src epoch =
    flag do_bit
    ∷ flag cd
    ∷ (put_uint16 qtype ++ (put_uint16 qclass ++ (bytes_of qname ++ (src ++ put_uint64 epoch))))

-- `hash`; the epoch is that of the package cachegen
unfoldable pub hash : Gen → String → ℕ → ℕ → Bool → Bool → List ℕ → ℕ
hash gen qname qtype qclass do_bit cd src =
    fnv64 (hash_input qname qtype qclass do_bit cd src gen.epoch)

-- What `key` gives: no key, a key, or a panic where the reply has no question to take it from.
pub data Key : Type 0 where
  unstored : Key
  stored : ℕ → Key
  panic : Key

unfoldable pub question_key : Gen → String → List Question → Bool → Bool → List ℕ → Key
question_key gen qname [] do_bit cd src = panic
question_key gen qname (q ∷ qs) do_bit cd src =
    stored (hash gen qname q.qtype q.qclass do_bit cd src)

unfoldable pub is_uncached : ResponseType → Bool
is_uncached other_error = true
is_uncached meta = true
is_uncached update = true
is_uncached _ = false

unfoldable pub is_name_error : ResponseType → Bool
is_name_error name_error = true
is_name_error _ = false

unfoldable pub key : Gen → String → Msg → ResponseType → Bool → Bool → List ℕ → Key
key gen qname m t do_bit cd src =
    if m.truncated
    then unstored
    else if is_uncached t
    then unstored
    else if is_name_error t && not (has_soa m)
    then unstored
    else if is_no_error t && not (has_soa m) && is_nodata m
    then unstored
    else question_key gen qname m.question do_bit cd src

-- net.IP.Mask with net.CIDRMask: the first bits of an address, and zeros
unfoldable pub mask_bytes : ℕ → List ℕ → List ℕ
mask_bytes ones [] = []
mask_bytes ones (b ∷ bs) =
    (if leb 8 ones then b else b / 2 ^ (8 - ones) * 2 ^ (8 - ones)) ∷ mask_bytes (ones - 8) bs

-- the two prefix lengths of a Cache
pub record Masks : Type 0 where
  pub mask4 : ℕ
  pub mask6 : ℕ

unfoldable pub bucket_of : (String → Option Ip) → Masks → String → List ℕ
bucket_of parse_ip masks remote = elim (parse_ip remote) [
  | none ↦ []
  | some (v4 ip) ↦ mask_bytes (min masks.mask4 32) ip ++ (min masks.mask4 32 % 256 ∷ [])
  | some (v6 ip) ↦ mask_bytes (min masks.mask6 128) ip ++ (min masks.mask6 128 % 256 ∷ [])
]

unfoldable pub key_src : (String → Option Ip) → Gen → Masks → String → List ℕ
key_src parse_ip gen masks remote =
    if label parse_ip gen remote == ""
    then bucket_of parse_ip masks remote
    else bytes_of (label parse_ip gen remote)
