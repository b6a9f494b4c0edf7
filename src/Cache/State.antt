-- ===== src/Cache/State.antt =====
-- split-horizon-cache/cache.go: the configuration and the state of a Cache. What comes from CoreDNS
-- is a parameter: its cache, which evicts as it likes, the classification of a message, the lowest
-- TTL of one, whether a reply fits a query, the zone of a name, and freq.Freq; and so is the
-- threshold of shouldPrefetch, which is computed in floating point.
use coredns_ez.Prelude.{ℕ, String, Bool, Option, List}
use coredns_ez.Cachegen.{Ip, Gen}
use coredns_ez.Cache.Message.{Msg, ResponseType}
use coredns_ez.Cache.Keys.{Masks}
use coredns_ez.Cache.Item.{Request, Item, Refresh}

pub record Library : Type 1 where
  pub Store : Type 0
  pub get : ℕ → Store → Option Item
  pub add : ℕ → Item → Store → Store
  pub remove : ℕ → Store → Store
  pub Freq : Type 0
  pub new_freq : Freq
  pub update_freq : ℕ → ℕ → Freq → Freq
  pub hits : Freq → ℕ
  pub reset : ℕ → ℕ → Freq → Freq
  pub typify : Msg → ℕ → ResponseType
  pub minimal_ttl : Msg → ResponseType → ℕ → ℕ
  pub match_reply : Request → Msg → Bool
  pub zone_of : List String → String → String
  pub set_reply : Request → Msg
  pub parse_ip : String → Option Ip
  pub threshold : ℕ → ℕ → ℕ

pub record Config : Type 0 where
  pub zones : List String
  pub nttl : ℕ
  pub minnttl : ℕ
  pub pttl : ℕ
  pub minpttl : ℕ
  pub failttl : ℕ
  pub prefetch : ℕ
  pub duration : ℕ
  pub percentage : ℕ
  pub stale_up_to : ℕ
  pub verify_stale : Bool
  pub verify_stale_timeout : ℕ
  pub prefer_positive : Bool
  pub stale_ttl : ℕ
  pub stale_recheck : ℕ
  pub pexcept : List String
  pub nexcept : List String
  pub keepttl : Bool
  pub masks : Masks

module _ (lib : Library) where
  open lib use {Store, Freq}

  pub record Cache : Type 0 where
    pub config : Config
    pub ncache : Store
    pub pcache : Store
    pub refreshes : ℕ → Refresh
    pub freqs : ℕ → Freq
    pub next_id : ℕ
    pub gen : Gen
