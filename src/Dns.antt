-- ===== src/Dns.antt =====
-- What the plugins take from github.com/miekg/dns: the shape of a resource record, the protocol's
-- numbers, and, as a parameter, the functions of that library that the code calls.
pub mod Serial
use coredns_ez.Prelude.{
  ℕ, String, Bool, Option, none, some, List, [], ◌∷◌, ◌-◌, leb, ◌&&◌, if◌then◌else◌,
}
use Prim.Native.Char.{Char, code}
use Prim.Native.String.{char_at}

-- dns.RR_Header
pub record Header : Type 0 where
  pub name : String
  pub rrtype : ℕ  -- uint16
  pub class : ℕ  -- uint16
  pub ttl : ℕ  -- uint32
  pub rdlength : ℕ  -- uint16

-- the fields of dns.SOA behind its header
pub record Soa : Type 0 where
  pub ns : String
  pub mbox : String
  pub serial : ℕ  -- uint32
  pub refresh : ℕ
  pub retry : ℕ
  pub expire : ℕ
  pub minttl : ℕ

-- The code tells `*dns.SOA` from every other RR by a type assertion, and reads the header.
pub data Rr : Type 0 where
  soa : Header → Soa → Rr
  other : Header → String → Rr

unfoldable pub header : Rr → Header
header (soa h s) = h
header (other h d) = h

unfoldable pub with_header : Header → Rr → Rr
with_header h (soa _ s) = soa h s
with_header h (other _ d) = other h d

-- `rr.(*dns.SOA)`
unfoldable pub is_soa : Rr → Bool
is_soa (soa _ _) = Bool.true
is_soa (other _ _) = Bool.false

abbrev pub type_ns : ℕ
type_ns = 2

abbrev pub type_cname : ℕ
type_cname = 5

abbrev pub type_soa : ℕ
type_soa = 6

abbrev pub type_opt : ℕ
type_opt = 41

abbrev pub type_rrsig : ℕ
type_rrsig = 46

abbrev pub type_nsec : ℕ
type_nsec = 47

abbrev pub type_ixfr : ℕ
type_ixfr = 251

abbrev pub type_axfr : ℕ
type_axfr = 252

abbrev pub type_mailb : ℕ
type_mailb = 253

abbrev pub type_maila : ℕ
type_maila = 254

abbrev pub type_any : ℕ
type_any = 255

abbrev pub class_inet : ℕ
class_inet = 1

abbrev pub class_none : ℕ
class_none = 254

abbrev pub class_any : ℕ
class_any = 255

pub data Rcode : Type 0 where
  success format_error server_failure name_error refused : Rcode
  yx_domain yx_rrset nx_rrset not_auth not_zone : Rcode

-- The functions of the library. `to_string` is `rr.String()`; `new_rr` is `dns.NewRR` of a text
-- that is given by its code points, `none` for an error.
pub record Dns : Type 0 where
  pub canonical_name : String → String
  pub to_string : Rr → String
  pub new_rr : List ℕ → Option Rr
  pub is_duplicate : Rr → Rr → Bool
  pub is_sub_domain : String → String → Bool

-- strings.ToLower on ASCII, which is what names hold
lower : Char → Char
lower c =
    if leb b'A' (code c) && leb (code c) b'Z'
    then char_at "abcdefghijklmnopqrstuvwxyz" (code c - b'A')
    else c

unfoldable pub to_lower : String → String
unfolding lower
to_lower String.[] = String.[]
to_lower (String.◌∷◌ c s) = String.◌∷◌ (lower c) (to_lower s)

-- strings.ToLower(dns.CanonicalName(name)), which every plugin writes out or wraps
unfoldable pub canonical : ⦃dns : Dns⦄ → String → String
unfolding to_lower
canonical ⦃dns⦄ name = to_lower (dns.canonical_name name)

-- soaOf, one copy in each plugin: the first SOA of a list.
unfoldable pub soa_of : List Rr → Option (Header × Soa)
soa_of [] = none
soa_of (soa h s ∷ rrs) = some (h, s)
soa_of (other _ _ ∷ rrs) = soa_of rrs
