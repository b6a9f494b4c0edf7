-- ===== src/Cache/Item.antt =====
-- split-horizon-cache/item.go and dnssec.go: a cached answer, the message it turns into, and the
-- state of its refreshes. Times and durations are numbers of nanoseconds. An item is shared by
-- pointer: its number stands for its identity, and its refresh state is kept by that number.
pub mod Answering
pub mod Ttl
pub mod Refreshes
use coredns_ez.Prelude.{
  ℕ, ◌+◌, ◌-◌, ◌/◌, ◌%◌, ◌^◌, String, Bool, true, false, not, Option, none, some, List, [], ◌∷◌,
  map, ◌&&◌, ◌||◌, ltb, keep, ◌==◌, nat_tests, text_tests, if◌then◌else◌, ℤ, pos, negsuc, pos_part,
  neg_part, sub_ℕ, to_u32,
}
use coredns_ez.Dns.{Header, type_opt}
use coredns_ez.Cache.Message.{
  AnswerRr, cname, other, header_of, Question, Msg, answers_question, equal_fold,
}

abbrev pub second : ℕ
second = 1000000000

-- uint32(d.Seconds()) of a duration that is not negative
abbrev pub seconds32 : ℕ → ℕ
seconds32 d = d / second % 2 ^ 32

-- what request.Request gives of a query: Name(), QName(), QType(), QClass(), Do(), the bits CD and
-- AD of its message, and IP()
pub record Request : Type 0 where
  pub name : String
  pub qname : String
  pub qtype : ℕ  -- uint16
  pub qclass : ℕ  -- uint16
  pub do_bit : Bool
  pub cd : Bool
  pub ad : Bool
  pub ip : String

pub record Content : Type 0 where
  pub id : ℕ
  pub name : String
  pub qtype : ℕ
  pub qclass : ℕ
  pub rcode : ℕ
  pub authoritative : Bool
  pub authenticated_data : Bool
  pub recursion_available : Bool
  pub answer : List AnswerRr
  pub ns : List AnswerRr
  pub extra : List AnswerRr
  pub wildcard : String
  pub answering : Bool
  pub orig_ttl : ℕ  -- uint32
  pub stored : ℕ

-- An item without, or with, an item in lastKnownGood.
pub data Item : Type 0 where
  item : Content → Item
  item_after : Item → Content → Item

unfoldable pub content : Item → Content
content (item c) = c
content (item_after good c) = c

unfoldable pub last_known_good : Item → Option Item
last_known_good (item c) = none
last_known_good (item_after good c) = some good

-- `i.lastKnownGood = o` on a new item
unfoldable pub with_good : Option Item → Content → Item
with_good none c = item c
with_good (some good) c = item_after good c

unfoldable pub is_opt : AnswerRr → Bool
is_opt r = (header_of r).rrtype == type_opt

with_ttl : ℕ → AnswerRr → AnswerRr
with_ttl ttl (cname h t) = cname (record h { ttl = ttl }) t
with_ttl ttl (other h d) = other (record h { ttl = ttl }) d

-- filterRRSlice; the copy of a record is a value
unfoldable pub filter_rr_slice : List AnswerRr → ℕ → List AnswerRr
unfolding with_ttl
filter_rr_slice rrs ttl = map (with_ttl ttl) (keep (λ r. not (is_opt r)) rrs)

unfoldable pub first_question : List Question → Question
first_question [] = record { name = ""; qtype = 0; qclass = 0 }
first_question (q ∷ qs) = q

-- newItem, under a number that no other item has
unfoldable pub new_item : ℕ → Msg → ℕ → ℕ → Content
new_item id m now d = record {
  id = id;
  name = (first_question m.question).name;
  qtype = (first_question m.question).qtype;
  qclass = (first_question m.question).qclass;
  rcode = m.rcode;
  authoritative = m.authoritative;
  authenticated_data = m.authenticated_data;
  recursion_available = m.recursion_available;
  answer = m.answer;
  ns = m.ns;
  extra = keep (λ r. not (is_opt r)) m.extra;
  wildcard = "";
  answering = answers_question m;
  orig_ttl = seconds32 d;
  stored = now;
}

-- `ttl`: the original one less the whole seconds since then, which may be negative in both ways
unfoldable pub ttl_at : Content → ℕ → ℤ
ttl_at i now = sub_ℕ (i.orig_ttl + (i.stored - now) / second) ((now - i.stored) / second)

-- ttl > 0
abbrev pub is_positive : ℤ → Bool
is_positive t = ltb 0 (pos_part t)

-- -ttl < n
abbrev pub is_within : ℕ → ℤ → Bool
is_within n t = ltb (neg_part t) (n + pos_part t)

-- toMsgWithTTL, on what SetReply of the library makes of the query
unfoldable pub to_msg_with_ttl : Msg → Content → ℕ → Bool → Bool → Msg
to_msg_with_ttl reply i ttl do_bit ad = record reply {
  authoritative = i.authoritative;
  authenticated_data = if not do_bit && not ad then false else i.authenticated_data;
  recursion_available = i.recursion_available;
  rcode = i.rcode;
  answer = filter_rr_slice i.answer ttl;
  ns = filter_rr_slice i.ns ttl;
  extra = filter_rr_slice i.extra ttl;
}

unfoldable pub to_msg : Msg → Content → ℕ → Bool → Bool → Msg
to_msg reply i now do_bit ad = to_msg_with_ttl reply i (to_u32 (ttl_at i now)) do_bit ad

unfoldable pub matches : Content → Request → Bool
matches i q = q.qtype == i.qtype && q.qclass == i.qclass && equal_fold q.qname i.name

unfoldable pub item_answers : Content → Request → Bool
item_answers i q = i.answering && matches i q

unfoldable pub good_of : Option Item → Request → Option Item
good_of none q = none
good_of (some good) q = if item_answers (content good) q then some good else none

unfoldable pub answering_item : Item → Request → Option Item
answering_item i q = if item_answers (content i) q then some i else good_of (last_known_good i) q

pub record Refresh : Type 0 where
  pub refreshing : Bool
  pub retry_after : Option ℕ

abbrev pub unrefreshed : Refresh
unrefreshed = record { refreshing = false; retry_after = none }

is_before : ℕ → Option ℕ → Bool
is_before now none = false
is_before now (some t) = ltb now t

-- the new state, and whether the caller may refresh the item
unfoldable pub begin_refresh : ℕ → ℕ → Refresh → Refresh × Bool
unfolding is_before
begin_refresh now failure_recheck r =
    if ltb 0 failure_recheck && is_before now r.retry_after
    then (r, false)
    else if r.refreshing
    then (r, false)
    else (record r { refreshing = true }, true)

unfoldable pub end_refresh : ℕ → ℕ → Bool → Refresh → Refresh
end_refresh now failure_recheck refreshed r =
    if ltb 0 failure_recheck && not refreshed
    then record { refreshing = false; retry_after = some (now + failure_recheck) }
    else record { refreshing = false; retry_after = none }
