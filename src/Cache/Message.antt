-- ===== src/Cache/Message.antt =====
-- split-horizon-cache/cache.go, the parts that look at a message: hasSOA, uniqueCNAMETarget,
-- canonicalName, answerHasType, answersQuestion, isNODATA, cacheResponseType, usableAnswer. A
-- record is a *dns.CNAME with its target, or another one with its data. Names are ASCII, on which
-- strings.EqualFold compares what strings.ToLower gives. response.Typify of CoreDNS is a parameter.
use coredns_ez.Prelude.{
  ℕ, zero, suc, String, Bool, true, false, not, Option, none, some, List, [], ◌∷◌, ◌&&◌, ◌||◌,
  length, some_of, ◌==◌, nat_tests, text_tests, if◌then◌else◌, ◌+◌,
}
use coredns_ez.Dns.{Header, type_cname, type_soa, type_any, class_any, to_lower}

pub data AnswerRr : Type 0 where
  cname : Header → String → AnswerRr
  other : Header → String → AnswerRr

unfoldable pub header_of : AnswerRr → Header
header_of (cname h t) = h
header_of (other h d) = h

pub record Question : Type 0 where
  pub name : String
  pub qtype : ℕ  -- uint16
  pub qclass : ℕ  -- uint16

pub record Msg : Type 0 where
  pub truncated : Bool
  pub authoritative : Bool
  pub authenticated_data : Bool
  pub recursion_available : Bool
  pub rcode : ℕ
  pub question : List Question
  pub answer : List AnswerRr
  pub ns : List AnswerRr
  pub extra : List AnswerRr

-- response.Type of CoreDNS
pub data ResponseType : Type 0 where
  no_error name_error server_error no_data delegation meta update other_error : ResponseType

abbrev pub rcode_success : ℕ
rcode_success = 0

abbrev pub rcode_server_failure : ℕ
rcode_server_failure = 2

abbrev pub rcode_name_error : ℕ
rcode_name_error = 3

-- strings.EqualFold
unfoldable pub equal_fold : String → String → Bool
equal_fold a b = to_lower a == to_lower b

unfoldable pub has_soa : Msg → Bool
has_soa m = some_of (λ r. (header_of r).rrtype == type_soa) m.ns

unfoldable pub class_matches : ℕ → ℕ → Bool
class_matches rr_class qclass = qclass == class_any || rr_class == qclass

-- The loop of uniqueCNAMETarget; `none` stands for `"", false`.
unfoldable pub target_from : String → List AnswerRr → String → ℕ → Option String
target_from target [] owner qclass = some target
target_from target (other h d ∷ answer) owner qclass = target_from target answer owner qclass
target_from target (cname h t ∷ answer) owner qclass =
    let skip = target_from target answer owner qclass in
    let take = target_from t answer owner qclass in
    if not (class_matches h.class qclass) || not (equal_fold h.name owner)
    then skip
    else if not (target == "") && not (equal_fold target t)
    then none
    else take

unfoldable pub unique_cname_target : List AnswerRr → String → ℕ → Option String
unique_cname_target = target_from ""

-- nameSet, as the list of its lower-case names
unfoldable pub contains : List String → String → Bool
contains s name = some_of (λ n. n == to_lower name) s

unfoldable pub add : List String → String → List String
add s name = to_lower name ∷ s

-- What canonicalName gives: the terminal name, or that there is none; `no_fuel` if its loop has not
-- ended.
pub data Walk : Type 0 where
  terminal : String → Walk
  malformed : Walk
  no_fuel : Walk

unfoldable pub walk : ℕ → List AnswerRr → ℕ → List String → String → Walk
walk zero answer qclass visited name = no_fuel
walk (suc fuel) answer qclass visited name =
    let visited' = add visited name in
    if contains visited name then malformed else elim (unique_cname_target answer name qclass) [
      | none ↦ malformed
      | some target ↦ elim (target == "") [
        | true ↦ terminal name
        | false ↦ walk fuel answer qclass visited' target
      ]
    ]

-- Each round but the first visits the target of another record.
unfoldable pub canonical_name : List AnswerRr → String → ℕ → Walk
canonical_name answer name qclass = walk (length answer + 2) answer qclass [] name

-- whether a record of the type belongs to the name
unfoldable pub has_rr : List AnswerRr → String → ℕ → ℕ → Bool
has_rr answer name qtype qclass =
    some_of
      (λ r.
        (header_of r).rrtype == qtype
        && class_matches (header_of r).class qclass
        && equal_fold (header_of r).name name)
      answer

unfoldable pub answer_has_type : List AnswerRr → String → ℕ → ℕ → Bool
answer_has_type [] name qtype qclass = false
answer_has_type (a ∷ answer) name qtype qclass =
    if qtype == type_any
    then some_of
        (λ r. class_matches (header_of r).class qclass && equal_fold (header_of r).name name)
        (a ∷ answer)
    else if qtype == type_cname
    then (elim (unique_cname_target (a ∷ answer) name qclass) [
      | none ↦ false
      | some target ↦ not (target == "")
    ])
    else (elim (canonical_name (a ∷ answer) name qclass) [
      | terminal name' ↦ has_rr (a ∷ answer) name' qtype qclass
      | malformed ↦ false
      | no_fuel ↦ false
    ])

-- the question, if it is asked of a NOERROR response
answered_by : List Question → List AnswerRr → Bool
answered_by [] answer = false
answered_by (q ∷ qs) answer = answer_has_type answer q.name q.qtype q.qclass

unfoldable pub answers_question : Msg → Bool
unfolding answered_by
answers_question m = m.rcode == rcode_success && answered_by m.question m.answer

is_empty : List AnswerRr → Bool
is_empty [] = true
is_empty (x ∷ xs) = false

unfoldable pub is_nodata : Msg → Bool
unfolding is_empty
is_nodata m = not (is_empty m.answer) && not (answers_question m)

unfoldable pub is_no_error : ResponseType → Bool
is_no_error no_error = true
is_no_error _ = false

-- cacheResponseType, over response.Typify
unfoldable pub cache_response_type : (Msg → ℕ → ResponseType) → Msg → ℕ → ResponseType
cache_response_type typify m now =
    if is_no_error (typify m now) && has_soa m && is_nodata m then no_data else typify m now

unfoldable pub usable_answer : (Msg → ℕ → ResponseType) → Msg → ℕ → Bool
usable_answer typify m now =
    not m.truncated && is_no_error (cache_response_type typify m now) && answers_question m
