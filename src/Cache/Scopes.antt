-- ===== src/Cache/Scopes.antt =====
-- For whom each cached answer was fetched. The scope of an item is that of the writer that stored
-- it: the DO and CD bits, the client's part of the key and the epoch. `origin` records it by the
-- item's number, beside the state of the cache, and no definition of the code reads it.
pub mod Isolation
use coredns_ez.Prelude.{
  ℕ, suc, ◌+◌, ◌^◌, ◌≤◌, ◌<◌, ◌≡◌, ◌≢◌, ◌⊎◌, refl, sym, ap, ◌∙◌, inl, inr, String, Bool, true,
  false, not, Option, none, some, List, [], ◌∷◌, ◌&&◌, ◌||◌, ltb, All, arith, ◌==◌, nat_tests,
  text_tests, if◌then◌else◌, if_some, Bool-cases,
}
use coredns_ez.Dns.{to_lower}
use coredns_ez.Cachegen.{Gen}
use coredns_ez.Cache.Message.{
  Question, Msg, ResponseType, no_error, name_error, server_error, no_data, delegation, meta,
  update, other_error,
}
use coredns_ez.Cache.Keys.{Key, unstored, stored, panic, key, question_key, hash, hash_input, fnv64}
use coredns_ez.Cache.Item.{
  Request, Content, Item, item, item_after, content, last_known_good, with_good, new_item,
  answering_item,
}
use coredns_ez.Cache.State.{Library, Config, Cache}
use coredns_ez.Cache.Writer.{Writer, write_msg}

pub record Scope : Type 0 where
  pub do_bit : Bool
  pub cd : Bool
  pub src : List ℕ
  pub epoch : ℕ

-- the items from a number on are of one scope
abbrev pub since : ℕ → Scope → (ℕ → Scope) → ℕ → Scope
since n scope origin id = if ltb id n then origin id else scope

-- An item with a number below `n` stands under the key of its own question in its own scope.
pub record IsFiled (origin : ℕ → Scope) (n k : ℕ) (c : Content) : Type 0 where
  pub numbered : c.id < n
  pub type_small : c.qtype < 2 ^ 16
  pub class_small : c.qclass < 2 ^ 16
  pub epoch_small : (origin c.id).epoch < 2 ^ 64
  pub keyed :
      k
      ≡ fnv64 (
          hash_input
            (to_lower c.name)
            c.qtype
            c.qclass
            (origin c.id).do_bit
            (origin c.id).cd
            (origin c.id).src
            (origin c.id).epoch)

abbrev pub AllFiled : (ℕ → Scope) → ℕ → ℕ → Item → Type 0
AllFiled origin n k i =
    IsFiled origin n k (content i)
    × ((g : Item) → last_known_good i ≡ some g → IsFiled origin n k (content g))

-- the numbers of a question are 16-bit
abbrev pub IsWire : Msg → Type 0
IsWire m = All (λ q. (q.qtype < 2 ^ 16) × (q.qclass < 2 ^ 16)) m.question

abbrev pub FirstNamed : String → List Question → Type 0
FirstNamed name [] = Unit
FirstNamed name (q ∷ qs) = to_lower q.name ≡ name

-- What the proofs use of CoreDNS: its cache returns what was put in, if anything, and Match
-- compares the first question's name.
pub record Laws (lib : Library) : Type 0 where
  pub get-add :
      (j k : ℕ) (i x : Item) (st : lib.Store)
      → lib.get j (lib.add k i st) ≡ some x
      → ((j ≡ k) × (x ≡ i)) ⊎ (lib.get j st ≡ some x)
  pub get-remove :
      (j k : ℕ) (x : Item) (st : lib.Store)
      → lib.get j (lib.remove k st) ≡ some x
      → lib.get j st ≡ some x
  pub match_named :
      (q : Request) (m : Msg) → lib.match_reply q m ≡ true → FirstNamed q.name m.question

module _ (lib : Library) where
  open lib use {get, add, remove, match_reply}

  abbrev pub Filed : Cache lib → (ℕ → Scope) → Type 0
  Filed s origin =
      (s.gen.epoch < 2 ^ 64)
      × ((k : ℕ) (i : Item) → get k s.ncache ≡ some i → AllFiled origin s.next_id k i)
      × ((k : ℕ) (i : Item) → get k s.pcache ≡ some i → AllFiled origin s.next_id k i)

  abbrev pub scope_of : Writer → Gen → Scope
  scope_of w gen = record { do_bit = w.do_bit; cd = w.cd; src = w.src; epoch = gen.epoch }

pub IsFiled-since :
    (origin : ℕ → Scope) (n k : ℕ) (scope : Scope) (m : ℕ) (c : Content)
    → n ≤ m
    → IsFiled origin n k c
    → IsFiled (since n scope origin) m k c
IsFiled-since origin n k scope m c h f =
    let same : since n scope origin c.id ≡ origin c.id = ground (arith, f.numbered) in
    record {
      numbered = omega (arith, f.numbered);
      type_small = f.type_small;
      class_small = f.class_small;
      epoch_small = rw same f.epoch_small;
      keyed = rw same f.keyed;
    }

pub AllFiled-since :
    (origin : ℕ → Scope) (n k : ℕ) (scope : Scope) (m : ℕ) (i : Item)
    → n ≤ m
    → AllFiled origin n k i
    → AllFiled (since n scope origin) m k i
AllFiled-since origin n k scope m i h (own, kept) = (
  IsFiled-since origin n k scope m (content i) h own,
  λ g e. IsFiled-since origin n k scope m (content g) h (kept g e),
)

-- what a write leaves as it is
pub record Kept (lib : Library) (s s' : Cache lib) : Type 0 where
  pub gen_same : s'.gen ≡ s.gen
  pub config_same : s'.config ≡ s.config
  pub grows : s.next_id ≤ s'.next_id

pub record SameWriter (w w' : Writer) : Type 0 where
  pub state_same : w'.state ≡ w.state
  pub do_same : w'.do_bit ≡ w.do_bit
  pub cd_same : w'.cd ≡ w.cd
  pub src_same : w'.src ≡ w.src

-- a scope for numbers that are not in use
pub Filed-since :
    (lib : Library) (origin : ℕ → Scope) (s : Cache lib) (scope : Scope)
    → Filed lib s origin
    → Filed lib s (since s.next_id scope origin)
Filed-since lib origin s scope (epoch, in_n, in_p) = (
  epoch,
  λ k i e. AllFiled-since origin s.next_id k scope s.next_id i (omega arith) (in_n k i e),
  λ k i e. AllFiled-since origin s.next_id k scope s.next_id i (omega arith) (in_p k i e),
)
