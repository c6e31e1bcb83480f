-- ===== src/Exchange/Rest/Nonces.antt =====
-- The nonces of whatever sequence of calls, whatever the clock does.
use cryptotrader.Prelude.{ℕ, suc, String, ◌≤◌, ◌<◌, List, [], ◌∷◌, arith}
use cryptotrader.Prelude.Dict.{Dict}
use cryptotrader.Float.{Float}
use cryptotrader.Models.{Side}
use cryptotrader.Exchange.Bucket.{acquire}
use cryptotrader.Exchange.Rest.{
  ok, raise, Result, deliver, Codec, Posting, Client, Payload, Turn, Ending, returned, bad_nonce,
  raised, waiting, next_nonce, send, post_once, retry, post,
}
use cryptotrader.Exchange.Rest.Endpoints.{
  place_order, place_post_only_limit, order_status, cancel_order, get_balance,
}

-- Nonces that fall from the newest request to the oldest, all under a bound.
abbrev pub FallBelow : ℕ → List Posting → Type 0
FallBelow n [] = Unit
FallBelow n (p ∷ ps) = (p.nonce < n) × FallBelow p.nonce ps

FallBelow-mono : (n m : ℕ) (ps : List Posting) → n ≤ m → FallBelow n ps → FallBelow m ps
FallBelow-mono n m [] h f = tt
FallBelow-mono n m (p ∷ ps) h f = (omega (arith, f.0), f.1)

-- Every request has a nonce of its own, later ones greater, none over `_last_nonce`.
abbrev pub HasFreshNonces : {W : Type 0} → Client W → Type 0
HasFreshNonces c = FallBelow (suc c.last_nonce) c.posted

-- The calls that the program makes, with their arguments.
pub data Call (W : Type 0) : Type 0 where
  places : String → Side → W → Call W
  rests : String → Side → W → W → ℕ → Call W
  asks : String → Call W
  cancels : String → Call W
  balance : Call W

pub next_nonce-lt :
    {W : Type 0} (candidate : ℕ) (c : Client W) → c.last_nonce < next_nonce candidate c
unfolding next_nonce
next_nonce-lt candidate c = ground arith

module _ {W : Type 0} ⦃fl : Float W⦄ (codec : Codec W) where
  pub perform : Turn W × Turn W → Call W → Client W → Client W
  perform turns (places pair side volume) c = (place_order codec turns pair side volume c).1
  perform turns (rests pair side volume price expire) c =
      (place_post_only_limit codec turns pair side volume price expire c).1
  perform turns (asks txid) c = (order_status codec turns txid c).1
  perform turns (cancels txid) c = (cancel_order codec turns txid c).1
  perform turns balance c = (get_balance codec turns c).1

  pub perform_all : List ((Turn W × Turn W) × Call W) → Client W → Client W
  perform_all [] c = c
  perform_all ((turns, call) ∷ rest) c = perform_all rest (perform turns call c)

  deliver-HasFreshNonces :
      (t : Turn W) (endpoint : String) (fields : Dict String String) (signed : Result String)
      (c : Client W)
      → FallBelow c.last_nonce c.posted
      → HasFreshNonces (deliver t endpoint fields signed c).1
  deliver-HasFreshNonces t endpoint fields (raise e) c h =
      FallBelow-mono _ (suc c.last_nonce) c.posted (omega arith) h
  deliver-HasFreshNonces t endpoint fields (ok s) c h = (omega arith, h)

  send-HasFreshNonces :
      (t : Turn W) (endpoint : String) (fields : Dict String String) (c : Client W)
      → HasFreshNonces c
      → HasFreshNonces (send codec t endpoint fields c).1
  unfolding send
  send-HasFreshNonces t endpoint fields c h =
      deliver-HasFreshNonces t endpoint _ _ (record c { last_nonce = next_nonce t.wall_clock c })
        (FallBelow-mono _ _ c.posted (next_nonce-lt t.wall_clock c) h)

  post_once-HasFreshNonces :
      (t : Turn W) (endpoint : String) (fields : Dict String String) (c : Client W)
      → HasFreshNonces c
      → HasFreshNonces (post_once codec t endpoint fields c).1
  unfolding post_once
  post_once-HasFreshNonces t endpoint fields c h = ground (
    arith,
    send-HasFreshNonces t endpoint fields (record c { bucket = (acquire t.readings c.bucket).1 }),
  )

  retry-HasFreshNonces :
      (t : Turn W) (endpoint : String) (fields : Dict String String)
      (first : Ending Payload × Client W)
      → HasFreshNonces first.1
      → HasFreshNonces (retry codec t endpoint fields first).1
  unfolding retry
  retry-HasFreshNonces t endpoint fields (bad_nonce, c) h =
      post_once-HasFreshNonces t endpoint fields c h
  retry-HasFreshNonces t endpoint fields (returned p, c) h = h
  retry-HasFreshNonces t endpoint fields (raised e, c) h = h
  retry-HasFreshNonces t endpoint fields (waiting, c) h = h

  post-HasFreshNonces :
      (turns : Turn W × Turn W) (endpoint : String) (fields : Dict String String) (c : Client W)
      → HasFreshNonces c
      → HasFreshNonces (post codec turns endpoint fields c).1
  unfolding post
  post-HasFreshNonces (first, second) endpoint fields c h =
      retry-HasFreshNonces second endpoint fields _
        (post_once-HasFreshNonces first endpoint fields c h)

  perform-HasFreshNonces :
      (turns : Turn W × Turn W) (call : Call W) (c : Client W)
      → HasFreshNonces c
      → HasFreshNonces (perform turns call c)
  unfolding perform place_order place_post_only_limit order_status cancel_order get_balance
  perform-HasFreshNonces turns (places pair side volume) c h = post-HasFreshNonces turns _ _ c h
  perform-HasFreshNonces turns (rests pair side volume price n) c h =
      post-HasFreshNonces turns _ _ c h
  perform-HasFreshNonces turns (asks txid) c h = post-HasFreshNonces turns _ _ c h
  perform-HasFreshNonces turns (cancels txid) c h = post-HasFreshNonces turns _ _ c h
  perform-HasFreshNonces turns balance c h = post-HasFreshNonces turns _ _ c h

  -- Whatever calls are made, whatever the clocks read and the exchange replies, the requests that
  -- went out have nonces that strictly increase, retries included.
  pub perform_all-HasFreshNonces :
      (calls : List ((Turn W × Turn W) × Call W)) (c : Client W)
      → HasFreshNonces c
      → HasFreshNonces (perform_all calls c)
  unfolding perform_all
  perform_all-HasFreshNonces [] c h = h
  perform_all-HasFreshNonces ((turns, call) ∷ rest) c h =
      perform_all-HasFreshNonces rest (perform turns call c) (perform-HasFreshNonces turns call c h)
