-- ===== src/Cache/Writer/Totality.antt =====
-- WriteMsg of ResponseWriter (split-horizon-cache/cache.go) and the panics in it.
use coredns_ez.Prelude.Options.{Total, bind-Total}
use coredns_ez.Prelude.{
  ℕ, ◌≢◌, refl, String, Bool, Option, none, some, List, [], ◌∷◌, ltb, arith, nat_tests, ◌&&◌,
  if-cases,
}
use coredns_ez.Cachegen.{Gen}
use coredns_ez.Cache.Message.{Question, Msg, ResponseType, cache_response_type}
use coredns_ez.Cache.Keys.{Key, unstored, stored, panic, key, question_key}
use coredns_ez.Cache.Item.{seconds32}
use coredns_ez.Cache.State.{Library, Cache}
use coredns_ez.Cache.Writer.{Writer, capped, duration_of, write_msg, set, store_reply}

abbrev pub HasQuestion : Msg → Type 0
HasQuestion m = m.question ≢ []

question_key-ne-panic :
    (gen : Gen) (name : String) (qs : List Question) (do_bit cd : Bool) (src : List ℕ)
    → qs ≢ []
    → question_key gen name qs do_bit cd src ≢ panic
unfolding question_key
question_key-ne-panic gen name [] do_bit cd src h = absurd (h refl)
question_key-ne-panic gen name (q ∷ qs) do_bit cd src h = λ e. cc e

key-ne-panic :
    (gen : Gen) (name : String) (m : Msg) (t : ResponseType) (do_bit cd : Bool) (src : List ℕ)
    → HasQuestion m
    → key gen name m t do_bit cd src ≢ panic
unfolding key
key-ne-panic gen name m t do_bit cd src h =
    ground (arith, question_key-ne-panic gen name m.question do_bit cd src h)

module _ (lib : Library) where
  store_reply-Total :
      (w : Writer) (now d : ℕ) (m : Msg) (k : Key) (t : ResponseType) (s : Cache lib)
      → k ≢ panic
      → Total (store_reply lib w now m k t d s)
  unfolding store_reply
  store_reply-Total w now d m panic t s h = absurd (h refl)
  store_reply-Total w now d m unstored t s h = ((s, w), refl)
  store_reply-Total w now d m (stored k) t s h =
      if-cases (λ (o : Option (Cache lib × Writer)). Total o) (ltb 0 d && lib.match_reply w.state m)
        (some (set lib w now m k t d s)) (some (s, w)) (λ _. (set lib w now m k t d s, refl))
        (λ _. ((s, w), refl))

  pub write_msg-Total :
      (w : Writer) (now : ℕ) (res : Msg) (s : Cache lib)
      → HasQuestion res
      → Total (write_msg lib w now res s)
  unfolding write_msg
  write_msg-Total w now res s h =
      let t = cache_response_type lib.typify res now in
      let d = duration_of lib s.config res t in
      bind-Total _ _
        (store_reply-Total (record w { last_item = none }) now d (capped (seconds32 d) res)
          (key s.gen w.state.name res t w.do_bit w.cd w.src) t s
          (key-ne-panic s.gen w.state.name res t w.do_bit w.cd w.src h))
        (λ p. (_, refl))
