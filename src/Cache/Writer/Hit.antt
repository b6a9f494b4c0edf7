-- ===== src/Cache/Writer/Hit.antt =====
-- WriteMsg (split-horizon-cache/cache.go), followed by a lookup (handler.go) in the same scope.
use coredns_ez.Prelude.{
  ℕ, ◌≤◌, ◌<◌, ◌≡◌, ◌≢◌, refl, ap, ◌∙◌, String, Bool, true, false, not, Option, none, some, List,
  [], ◌∷◌, arith, nat_tests, text_tests, eq_iff, if◌then◌else◌, ◌&&◌,
}
use coredns_ez.Cachegen.{Gen}
use coredns_ez.Cache.Message.{Question, Msg, no_error, cache_response_type, equal_fold}
use coredns_ez.Cache.Keys.{stored, key, question_key, hash}
use coredns_ez.Cache.Item.{Item, Content, content, with_good, new_item, seconds32}
use coredns_ez.Cache.State.{Library, Cache}
use coredns_ez.Cache.Writer.{
  Writer, duration_of, capped, set, set_success, allocate, good_before, with_wildcard, excepted,
  first_name,
}
use coredns_ez.Cache.Writer.Filed.{key-question}

-- What the proof uses of CoreDNS's cache: what was added is there, and nothing is added by a
-- removal.
pub record Keeps (lib : Library) : Type 0 where
  pub get-added : (k : ℕ) (i : Item) (st : lib.Store) → lib.get k (lib.add k i st) ≡ some i
  pub get-removed :
      (k : ℕ) (st : lib.Store) → lib.get k st ≡ none → lib.get k (lib.remove k st) ≡ none

first_hash :
    (gen : Gen) (name : String) (qs : List Question) (q : Question) (do_bit cd : Bool)
    (src : List ℕ) (k : ℕ)
    → qs ≡ q ∷ []
    → question_key gen name qs do_bit cd src ≡ stored k
    → hash gen name q.qtype q.qclass do_bit cd src ≡ k
unfolding question_key
first_hash gen name [] q do_bit cd src k e h = absurd (cc e)
first_hash gen name (x ∷ qs) q do_bit cd src k e h = ground (arith, e, h)

wildcard-answer :
    (id now d : ℕ) (m : Msg) (x : Option String)
    → (with_wildcard x (new_item id m now d)).answer ≡ m.answer
unfolding with_wildcard new_item
wildcard-answer id now d m none = refl
wildcard-answer id now d m (some x) = refl

module _ (lib : Library) (keeps : Keeps lib) (w : Writer) (now : ℕ) (res : Msg) (s : Cache lib)
    (k : ℕ) where
  open lib use {get, typify, match_reply, zone_of}

  -- how long a reply is kept that is a positive answer
  abbrev pub kept_for : ℕ
  kept_for = duration_of lib s.config res no_error

  abbrev aged : Msg
  aged = capped (seconds32 kept_for) res

  abbrev silent : Writer
  silent = record w { last_item = none }

  -- A reply that WriteMsg stores as a positive answer to the writer's question, where no denial
  -- stands.
  pub record IsPositive (q : Question) : Type 0 where
    pub asked : aged.question ≡ q ∷ []
    pub same_type : w.state.qtype ≡ q.qtype
    pub same_class : w.state.qclass ≡ q.qclass
    pub same_name : equal_fold w.state.qname q.name ≡ true
    pub same_do : w.state.do_bit ≡ w.do_bit
    pub same_cd : w.state.cd ≡ w.cd
    pub no_err : cache_response_type typify res now ≡ no_error
    pub storable : key s.gen w.state.name res no_error w.do_bit w.cd w.src ≡ stored k
    pub fitting : match_reply w.state aged ≡ true
    pub not_excepted : zone_of w.pexcept q.name ≡ ""
    pub impartial : s.config.prefer_positive ≡ false
    pub no_denial : get k s.ncache ≡ none
    pub lasting : (1 ≤ seconds32 kept_for) × (0 < kept_for)

  -- the cache after the write
  abbrev written : Cache lib
  written = (set_success lib silent now aged k kept_for s).0

  abbrev fresh : Content
  fresh = with_wildcard w.wildcard (new_item s.next_id aged now kept_for)

  -- the fields of the new item that a lookup and a reply read
  record IsFresh (q : Question) (c : Content) : Type 0 where
    type_of : c.qtype ≡ q.qtype
    class_of : c.qclass ≡ q.qclass
    name_of : c.name ≡ q.name
    answer_of : c.answer ≡ aged.answer
    ttl_of : c.orig_ttl ≡ seconds32 kept_for
    stored_now : c.stored ≡ now

  content-with_good : (o : Option Item) (c : Content) → content (with_good o c) ≡ c
  unfolding content with_good
  content-with_good none c = refl
  content-with_good (some g) c = refl

  key_of :
      (q : Question)
      → IsPositive q
      → hash s.gen w.state.name w.state.qtype w.state.qclass w.state.do_bit w.state.cd w.src ≡ k
  unfolding capped
  key_of q p =
      rw (p.same_type, p.same_class, p.same_do, p.same_cd)
        (first_hash s.gen w.state.name res.question q w.do_bit w.cd w.src k p.asked
          (key-question s.gen w.state.name res no_error w.do_bit w.cd w.src k p.storable))

  -- a positive answer whose zone the writer does not except is stored
  pub set-stored :
      (m : Msg) (d : ℕ)
      → zone_of w.pexcept (first_name m.question) ≡ ""
      → (i : Item) × (get k (set lib w now m k no_error d s).0.pcache ≡ some i)
        × ((content i).answer ≡ m.answer)
  unfolding set excepted set_success allocate
  set-stored m d free =
      let open_zone : excepted lib w.pexcept m ≡ false =
        ground (arith, free, eq_iff (zone_of w.pexcept (first_name m.question)) "") in
      let c = with_wildcard w.wildcard (new_item s.next_id m now d) in
      let o =
        if s.config.prefer_positive && not c.answering
        then good_before lib (get k s.pcache) w.state
        else none in
      (
        with_good o c,
        rw open_zone (keeps.get-added k (with_good o c) s.pcache),
        ap (λ (x : Content). x.answer) (content-with_good o c)
            ∙ wildcard-answer s.next_id now d m w.wildcard,
      )

  pub set-excepted :
      (m : Msg) (d : ℕ)
      → zone_of w.pexcept (first_name m.question) ≢ ""
      → set lib w now m k no_error d s ≡ (s, w)
  unfolding set excepted
  set-excepted m d barred =
      let shut : excepted lib w.pexcept m ≡ true =
        ground (arith, barred, eq_iff (zone_of w.pexcept (first_name m.question)) "") in
      rw shut refl
