-- ===== src/Cache/Item/Answering.antt =====
-- The two items that a lookup chooses between: the one at the key, and the one that it keeps.
use coredns_ez.Prelude.{◌≡◌, ◌⊎◌, refl, inl, inr, true, Option, none, some, arith, if_some}
use coredns_ez.Cache.Item.{
  Request, Item, content, last_known_good, matches, item_answers, answering_item, good_of,
}

pub good_of-from :
    (o : Option Item) (q : Request) (i : Item)
    → good_of o q ≡ some i
    → (o ≡ some i) × (matches (content i) q ≡ true)
unfolding good_of item_answers
good_of-from none q i e = ground (arith, e)
good_of-from (some g) q i e = elim (if_some _ g none i e) [
  | inl (t, same) ↦ rw (← same) (refl, ground (arith, t))
  | inr (f, no_item) ↦ absurd (cc no_item)
]

pub answering_item-from :
    (j : Item) (q : Request) (i : Item)
    → answering_item j q ≡ some i
    → ((j ≡ i) ⊎ (last_known_good j ≡ some i)) × (matches (content i) q ≡ true)
unfolding answering_item item_answers
answering_item-from j q i e = elim (if_some _ j (good_of (last_known_good j) q) i e) [
  | inl (t, same) ↦ rw (← same) (inl refl, ground (arith, t))
  | inr (f, kept) ↦
      let (from, matching) = good_of-from (last_known_good j) q i kept in (inr from, matching)
]
