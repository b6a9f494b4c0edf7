-- ===== src/Cachegen.antt =====
-- internal/cachegen/cachegen.go: the epoch that is folded into the keys of the cache, and the label
-- of a client. An address of net.ParseIP is its bytes, four of them for IPv4 and sixteen otherwise,
-- which is what To4 tells apart.
use coredns_ez.Prelude.{
  ℕ, suc, ◌%◌, ◌^◌, String, Option, none, some, List, ◌==◌, text_tests, if◌then◌else◌,
}

pub data Ip : Type 0 where
  v4 v6 : List ℕ → Ip

-- the two variables of the package
pub record Gen : Type 0 where
  pub epoch : ℕ
  pub matcher : Option (Ip → String)

-- epoch.Add(1) on a uint64
unfoldable pub bump : Gen → Gen
bump g = record g { epoch = suc g.epoch % 2 ^ 64 }

unfoldable pub set_matcher : Option (Ip → String) → Gen → Gen
set_matcher m g = record g { matcher = m }

unfoldable pub label : (String → Option Ip) → Gen → String → String
label parse_ip g ip_str = elim g.matcher [
  | none ↦ ""
  | some m ↦ elim (parse_ip ip_str) [ none ↦ "" | some ip ↦ if m ip == "" then "public" else m ip ]
]
