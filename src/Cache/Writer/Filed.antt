-- ===== src/Cache/Writer/Filed.antt =====
-- `set` of ResponseWriter (split-horizon-cache/cache.go), and the scope of its writer.
use coredns_ez.Prelude.{
  ℕ, suc, ◌^◌, ◌≤◌, ◌<◌, ◌≡◌, refl, inl, inr, String, Bool, true, false, Option, none, some, List,
  [], ◌∷◌, All, arith, nat_tests, text_tests, if◌then◌else◌,
}
use coredns_ez.Dns.{to_lower}
use coredns_ez.Cachegen.{Gen}
use coredns_ez.Cache.Message.{
  Question, Msg, ResponseType, no_error, name_error, server_error, no_data, delegation, meta,
  update, other_error,
}
use coredns_ez.Cache.Keys.{stored, key, question_key, hash, hash_input, fnv64}
use coredns_ez.Cache.Item.{
  Request, Content, Item, content, last_known_good, with_good, new_item, first_question,
}
use coredns_ez.Cache.Item.Answering.{answering_item-from}
use coredns_ez.Cache.State.{Library, Cache}
use coredns_ez.Cache.Writer.{
  Writer, set, set_success, set_denial, allocate, good_before, with_wildcard,
}
use coredns_ez.Cache.Scopes.{
  Scope, since, IsFiled, AllFiled, FirstNamed, Laws, Filed, scope_of, AllFiled-since,
}

pub key-question :
    (gen : Gen) (name : String) (m : Msg) (t : ResponseType) (do_bit cd : Bool) (src : List ℕ)
    (k : ℕ)
    → key gen name m t do_bit cd src ≡ stored k
    → question_key gen name m.question do_bit cd src ≡ stored k
unfolding key
key-question gen name m t do_bit cd src k e = ground (arith, e)

-- what a new item needs of its question
pub record Asked (gen : Gen) (do_bit cd : Bool) (src : List ℕ) (k : ℕ) (q : Question) : Type 0 where
  pub type_small : q.qtype < 2 ^ 16
  pub class_small : q.qclass < 2 ^ 16
  pub keyed : k ≡ fnv64 (hash_input (to_lower q.name) q.qtype q.qclass do_bit cd src gen.epoch)

pub first-Asked :
    (gen : Gen) (name : String) (qs : List Question) (do_bit cd : Bool) (src : List ℕ) (k : ℕ)
    → question_key gen name qs do_bit cd src ≡ stored k
    → FirstNamed name qs
    → All (λ (q : Question). (q.qtype < 2 ^ 16) × (q.qclass < 2 ^ 16)) qs
    → Asked gen do_bit cd src k (first_question qs)
unfolding question_key first_question hash
first-Asked gen name [] do_bit cd src k e n small = ground (arith, e)
first-Asked gen name (q ∷ qs) do_bit cd src k e n small = record {
  type_small = small.0.0;
  class_small = small.0.1;
  keyed = rw n (cc e);
}

module _ (lib : Library) (laws : Laws lib) (origin : ℕ → Scope) (w : Writer) (s : Cache lib)
    (filed : Filed lib s origin) where
  open lib use {get, add, remove}

  abbrev pub here : ℕ → Scope
  here = since s.next_id (scope_of lib w s.gen) origin

  new-IsFiled :
      (k now duration : ℕ) (m : Msg)
      → Asked s.gen w.do_bit w.cd w.src k (first_question m.question)
      → IsFiled here
          (suc s.next_id)
          k
          (with_wildcard w.wildcard (new_item s.next_id m now duration))
  unfolding with_wildcard new_item
  new-IsFiled k now duration m a = split w.wildcard
    where
      own : here s.next_id ≡ scope_of lib w s.gen
      own = ground arith

      split :
          (o : Option String)
          → IsFiled here (suc s.next_id) k (with_wildcard o (new_item s.next_id m now duration))
      split none = record {
        numbered = omega arith;
        type_small = a.type_small;
        class_small = a.class_small;
        epoch_small = rw own filed.0;
        keyed = rw own a.keyed;
      }
      split (some x) = record {
        numbered = omega arith;
        type_small = a.type_small;
        class_small = a.class_small;
        epoch_small = rw own filed.0;
        keyed = rw own a.keyed;
      }

  before-AllFiled :
      (n' k : ℕ) (i : Item) → s.next_id ≤ n' → AllFiled origin s.next_id k i → AllFiled here n' k i
  before-AllFiled n' k i h a = AllFiled-since origin s.next_id k (scope_of lib w s.gen) n' i h a

  with_good-AllFiled :
      (n' k : ℕ) (o : Option Item) (c : Content)
      → IsFiled here n' k c
      → ((g : Item) → o ≡ some g → IsFiled here n' k (content g))
      → AllFiled here n' k (with_good o c)
  unfolding with_good content last_known_good
  with_good-AllFiled n' k none c f h = (f, λ g e. absurd (cc e))
  with_good-AllFiled n' k (some x) c f h = (f, λ g e. h g e)

  good_before-IsFiled :
      (k : ℕ) (o : Option Item) (q : Request) (g : Item)
      → ((i : Item) → o ≡ some i → AllFiled origin s.next_id k i)
      → good_before lib o q ≡ some g
      → IsFiled here (suc s.next_id) k (content g)
  unfolding good_before
  good_before-IsFiled k none q g h e = absurd (cc e)
  good_before-IsFiled k (some j) q g h e =
      let (own, kept) = before-AllFiled (suc s.next_id) k j (omega arith) (h j refl) in
      elim (answering_item-from j q g e).0 [ inl same ↦ rw (← same) own | inr last ↦ kept g last ]

  kept_if :
      (b : Bool) (k : ℕ) (q : Request) (g : Item)
      → (if b then good_before lib (get k s.pcache) q else none) ≡ some g
      → IsFiled here (suc s.next_id) k (content g)
  kept_if true k q g e = good_before-IsFiled k (get k s.pcache) q g (filed.2 k) e
  kept_if false k q g e = absurd (cc e)

  dropped :
      (b : Bool) (j k : ℕ) (i : Item)
      → get j (if b then remove k s.ncache else s.ncache) ≡ some i
      → AllFiled here (suc s.next_id) j i
  dropped true j k i e =
      before-AllFiled (suc s.next_id) j i (omega arith)
        (filed.1 j i (laws.get-remove j k i s.ncache e))
  dropped false j k i e = before-AllFiled (suc s.next_id) j i (omega arith) (filed.1 j i e)

  added :
      (j k : ℕ) (i new : Item) (st : lib.Store)
      → AllFiled here (suc s.next_id) k new
      → ((i : Item) → get j st ≡ some i → AllFiled origin s.next_id j i)
      → get j (add k new st) ≡ some i
      → AllFiled here (suc s.next_id) j i
  added j k i new st a old e = elim (laws.get-add j k new i st e) [
    | inl (at, same) ↦ rw (at, same) a
    | inr before ↦ before-AllFiled (suc s.next_id) j i (omega arith) (old i before)
  ]

  module _ (now k duration : ℕ) (m : Msg)
      (a : Asked s.gen w.do_bit w.cd w.src k (first_question m.question)) where
    set_success-Filed : Filed lib (set_success lib w now m k duration s).0 here
    unfolding set_success allocate
    set_success-Filed = (
      filed.0,
      λ j i e. dropped _ j k i e,
      λ j i e.
          added j k i _ s.pcache
            (with_good-AllFiled (suc s.next_id) k _ _ (new-IsFiled k now duration m a)
              (λ g. kept_if _ k w.state g))
            (filed.2 j) e,
    )

    set_denial-Filed : Filed lib (set_denial lib w now m k duration s).0 here
    unfolding set_denial allocate content last_known_good
    set_denial-Filed = (
      filed.0,
      λ j i e.
          added j k i _ s.ncache (new-IsFiled k now duration m a, λ g e. absurd (cc e)) (filed.1 j)
            e,
      λ j i e. before-AllFiled (suc s.next_id) j i (omega arith) (filed.2 j i e),
    )

    pub unchanged : Filed lib s here
    unchanged = (
      filed.0,
      λ j i e. before-AllFiled s.next_id j i (omega arith) (filed.1 j i e),
      λ j i e. before-AllFiled s.next_id j i (omega arith) (filed.2 j i e),
    )

    either :
        (b : Bool) (p : Cache lib × Writer)
        → Filed lib p.0 here
        → Filed lib (if b then (s, w) else p).0 here
    either true p f = unchanged
    either false p f = f

    pub set-Filed : (t : ResponseType) → Filed lib (set lib w now m k t duration s).0 here
    unfolding set
    set-Filed no_error = either _ _ set_success-Filed
    set-Filed delegation = either _ _ set_success-Filed
    set-Filed name_error = either _ _ set_denial-Filed
    set-Filed no_data = either _ _ set_denial-Filed
    set-Filed server_error = either _ _ set_denial-Filed
    set-Filed other_error = unchanged
    set-Filed meta = unchanged
    set-Filed update = unchanged
