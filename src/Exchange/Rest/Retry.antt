-- ===== src/Exchange/Rest/Retry.antt =====
-- What a private call sends, on every path: nothing, one request, or one that is turned down for
-- its nonce and one more.
use cryptotrader.Prelude.{
  String, ◌≡◌, ◌≢◌, ap, sym, ◌∙◌, ◌<◌, refl, true, false, Bool, ◌∷◌, Result, ok, raise, arith,
  string_eq,
}
use cryptotrader.Prelude.Dict.{Dict, insert}
use cryptotrader.Float.{Float}
use cryptotrader.Exchange.Bucket.{acquire}
use cryptotrader.Exchange.Rest.{
  Codec, Posting, Client, Payload, Turn, Ending, returned, bad_nonce, raised, waiting, read_reply,
  next_nonce, deliver, go_on, send, post_once, retry, post,
}
use cryptotrader.Exchange.Rest.Nonces.{next_nonce-lt}

-- A call that ended before its request went out.
abbrev pub IsUnsent : Ending Payload → Type 0
IsUnsent (returned p) = ⊥
IsUnsent bad_nonce = ⊥
IsUnsent (raised e) = Unit
IsUnsent waiting = Unit

module _ {W : Type 0} where
  -- The request is the given one with its nonce.
  abbrev pub Carries : Codec W → String → Dict String String → Posting → Type 0
  Carries codec endpoint fields p =
      (p.endpoint ≡ endpoint) × (p.fields ≡ insert "nonce" (codec.str_int p.nonce) fields)

  module _ (codec : Codec W) (endpoint : String) (fields : Dict String String) where
    -- A request under the first client's state leaves the second, after the turn `t`.
    pub data PostsOnce (t : Turn W) (c : Client W) (r : Ending Payload) (c' : Client W)
        : Type 0 where
      unsent : c'.posted ≡ c.posted → IsUnsent r → PostsOnce t c r c'
      sent :
          (p : Posting)
          → Carries codec endpoint fields p
          → c'.posted ≡ p ∷ c.posted
          → c.last_nonce < p.nonce
          → c'.last_nonce ≡ p.nonce
          → r ≡ read_reply t.reply
          → PostsOnce t c r c'

    deliver-PostsOnce :
        (t : Turn W) (c c' : Client W) (signed : Result String)
        → c.last_nonce < c'.last_nonce
        → c'.posted ≡ c.posted
        → PostsOnce t c
            (deliver t endpoint (insert "nonce" (codec.str_int c'.last_nonce) fields) signed c').0
            (deliver t endpoint (insert "nonce" (codec.str_int c'.last_nonce) fields) signed c').1
    deliver-PostsOnce t c c' (raise e) h same = unsent same tt
    deliver-PostsOnce t c c' (ok s) h same =
        let p : Posting = record {
          endpoint = endpoint;
          fields = insert "nonce" (codec.str_int c'.last_nonce) fields;
          nonce = c'.last_nonce;
          signature = s;
        } in
        sent p (refl, refl) (ap (λ l. p ∷ l) same) h refl refl

    send-PostsOnce :
        (t : Turn W) (c c' : Client W)
        → c'.last_nonce ≡ c.last_nonce
        → c'.posted ≡ c.posted
        → PostsOnce t c (send codec t endpoint fields c').0 (send codec t endpoint fields c').1
    unfolding send
    send-PostsOnce t c c' e same =
        deliver-PostsOnce t c (record c' { last_nonce = next_nonce t.wall_clock c' }) _
          (omega (arith, next_nonce-lt t.wall_clock c')) same

    go_on-PostsOnce :
        ⦃fl : Float W⦄ (t : Turn W) (c c' : Client W) (got : Result Bool)
        → c'.last_nonce ≡ c.last_nonce
        → c'.posted ≡ c.posted
        → PostsOnce t c
            (go_on codec t endpoint fields got c').0
            (go_on codec t endpoint fields got c').1
    go_on-PostsOnce t c c' (raise e) n same = unsent same tt
    go_on-PostsOnce t c c' (ok false) n same = unsent same tt
    go_on-PostsOnce t c c' (ok true) n same = send-PostsOnce t c c' n same

    post_once-PostsOnce :
        ⦃fl : Float W⦄ (t : Turn W) (c : Client W)
        → PostsOnce t c
            (post_once codec t endpoint fields c).0
            (post_once codec t endpoint fields c).1
    unfolding post_once
    post_once-PostsOnce t c =
        go_on-PostsOnce t c (record c { bucket = (acquire t.readings c.bucket).1 }) _ refl refl

    -- The ways of a private call, by its two turns.
    pub data Posts (turns : Turn W × Turn W) (c : Client W) (r : Ending Payload) (c' : Client W)
        : Type 0 where
      nothing : c'.posted ≡ c.posted → IsUnsent r → Posts turns c r c'
      once :
          (p : Posting)
          → Carries codec endpoint fields p
          → c'.posted ≡ p ∷ c.posted
          → r ≡ read_reply turns.0.reply
          → r ≢ bad_nonce
          → Posts turns c r c'
      refused :
          (p : Posting)
          → Carries codec endpoint fields p
          → c'.posted ≡ p ∷ c.posted
          → read_reply turns.0.reply ≡ bad_nonce
          → IsUnsent r
          → Posts turns c r c'
      twice :
          (p q : Posting)
          → Carries codec endpoint fields p
          → Carries codec endpoint fields q
          → c'.posted ≡ q ∷ p ∷ c.posted
          → p.nonce < q.nonce
          → read_reply turns.0.reply ≡ bad_nonce
          → r ≡ read_reply turns.1.reply
          → Posts turns c r c'

    -- The second request, after a first one that was turned down.
    after_refusal :
        (turns : Turn W × Turn W) (c c' c'' : Client W) (r : Ending Payload) (p : Posting)
        → Carries codec endpoint fields p
        → c'.posted ≡ p ∷ c.posted
        → c'.last_nonce ≡ p.nonce
        → bad_nonce ≡ read_reply turns.0.reply
        → PostsOnce turns.1 c' r c''
        → Posts turns c r c''
    after_refusal turns c c' c'' r p carries e n reply (unsent same h) =
        refused p carries (same ∙ e) (sym reply) h
    after_refusal turns c c' c'' r p carries e n reply (sent q carries' e' lt n' reply') =
        twice p q carries carries' (e' ∙ ap (λ l. q ∷ l) e) (omega arith) (sym reply) reply'

    retry-Posts :
        ⦃fl : Float W⦄ (turns : Turn W × Turn W) (c c' : Client W) (r : Ending Payload)
        → PostsOnce turns.0 c r c'
        → Posts turns c
            (retry codec turns.1 endpoint fields (r, c')).0
            (retry codec turns.1 endpoint fields (r, c')).1
    unfolding retry
    retry-Posts turns c c' (returned x) (unsent same h) = elim h [ ]
    retry-Posts turns c c' (returned x) (sent p carries e lt n reply) =
        once p carries e reply (λ q. cc)
    retry-Posts turns c c' (raised x) (unsent same h) = nothing same tt
    retry-Posts turns c c' (raised x) (sent p carries e lt n reply) =
        once p carries e reply (λ q. cc)
    retry-Posts turns c c' waiting (unsent same h) = nothing same tt
    retry-Posts turns c c' waiting (sent p carries e lt n reply) = once p carries e reply (λ q. cc)
    retry-Posts turns c c' bad_nonce (unsent same h) = elim h [ ]
    retry-Posts turns c c' bad_nonce (sent p carries e lt n reply) =
        after_refusal turns c c' _ _ p carries e n reply (post_once-PostsOnce turns.1 c')

    -- A private call sends nothing and ends with an exception or asleep; or sends the request once
    -- and ends as its reply says, which did not refuse the nonce; or, only where the reply did,
    -- sends the same request once more under a greater nonce and ends as the second reply says, or
    -- ends before that with an exception or asleep.
    pub post-Posts :
        ⦃fl : Float W⦄ (turns : Turn W × Turn W) (c : Client W)
        → Posts turns c
            (post codec turns endpoint fields c).0
            (post codec turns endpoint fields c).1
    unfolding post
    post-Posts (first, second) c = retry-Posts (first, second) c _ _ (post_once-PostsOnce first c)
