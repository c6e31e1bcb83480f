-- ===== src/Exchange/Rest.antt =====
-- cryptotrader/exchange/kraken_rest.py: the class `KrakenRest` and its signed calls, down to `_post`.
-- What a posting meets is an argument, its `Turn`: the readings of the bucket's clock, the wall
-- clock, and the reply. `Codec` is what the client calls of the standard library: digests, base64,
-- and the printing and reading of numbers. A call that still waits for its turn is `waiting`.
pub mod Nonces
pub mod Endpoints
pub mod Retry
mod Tests
use Prim.Native.String.{◌++◌ as append}
use text.Mathlib.Text.{find?}
use cryptotrader.Prelude.{
  string_eq, ℕ, suc, String, Bool, true, false, ltb, is_some, if◌then◌else◌, Option, none, some,
  List, [], ◌∷◌, ◌++◌, Result, ok, raise, Error, runtime_error, value_error, ◌||◌,
}
use cryptotrader.Prelude.Dict.{Dict, insert, get_or}
use cryptotrader.Float.{Float}
use cryptotrader.Models.{Side}
use cryptotrader.Exchange.Bucket.{TokenBucket, acquire}

-- `bytes`
abbrev pub Bytes : Type 0
Bytes = List ℕ

-- A request on the wire. The number is that of the field `nonce`.
pub record Posting : Type 0 where
  pub endpoint : String
  pub fields : Dict String String
  pub nonce : ℕ
  pub signature : String

module _ (W : Type 0) where
  pub record Codec : Type 0 where
    -- `str(n)`, `str(x)` and `float(s)`
    pub str_int : ℕ → String
    pub str_float : W → String
    pub read_float : String → Result W
    pub urlencode : Dict String String → String
    pub encode : String → Bytes
    pub sha256 : Bytes → Bytes
    -- by the key and the message
    pub hmac_sha512 : Bytes → Bytes → Bytes
    pub b64decode : String → Result Bytes
    pub b64encode : Bytes → String

  pub record Client : Type 0 where
    pub api_key : String
    pub api_secret : String
    pub bucket : TokenBucket W
    pub last_nonce : ℕ
    -- what was posted so far, newest first
    pub posted : List Posting

-- The parts of a JSON result that the endpoints read.
pub record Payload : Type 0 where
  pub txid : List String
  -- the records of QueryOrders, by transaction id
  pub orders : Dict String (Dict String String)
  -- the amounts of Balance, by asset
  pub amounts : Dict String String

-- A connection, a status or a body that raises; or a body, with its list of errors.
pub data Reply : Type 0 where
  broken : Error → Reply
  body : List String → Payload → Reply

pub record Turn (W : Type 0) : Type 0 where
  pub readings : List W
  -- `int(time.time() * 1_000_000)`
  pub wall_clock : ℕ
  pub reply : Reply

-- How a call ends. A RuntimeError of `_post_once` that tells of an invalid nonce stands apart.
pub data Ending (A : Type 0) : Type 0 where
  returned : A → Ending A
  bad_nonce : Ending A
  raised : Error → Ending A
  waiting : Ending A

-- What a caller of `_post` makes of the result.
abbrev pub then_read : {A B : Type 0} → Ending A → (A → Result B) → Ending B
then_read (returned a) f = elim (f a) [ ok b ↦ returned b | raise e ↦ raised e ]
then_read bad_nonce f = bad_nonce
then_read (raised e) f = raised e
then_read waiting f = waiting

-- A handler of every exception.
abbrev pub swallow : {A : Type 0} → Ending A → Ending (Unit {0})
swallow waiting = waiting
swallow (returned a) = returned tt
swallow bad_nonce = returned tt
swallow (raised e) = returned tt

-- `"EAPI:Invalid nonce" in str(exc)`, where the text of `exc` lists the errors.
unfoldable pub tells_bad_nonce : List String → Bool
tells_bad_nonce [] = false
tells_bad_nonce (e ∷ es) = is_some (find? e "EAPI:Invalid nonce") || tells_bad_nonce es

-- The end of `_post_once`: an empty list of errors is no error.
unfoldable pub read_reply : Reply → Ending Payload
unfolding tells_bad_nonce
read_reply (broken e) = raised e
read_reply (body [] result) = returned result
read_reply (body (e ∷ es) result) =
    if tells_bad_nonce (e ∷ es) then bad_nonce else raised runtime_error

abbrev pub side_text : Side → String
side_text Side.buy = "buy"
side_text Side.sell = "sell"

abbrev pub first_txid : Payload → Result String
first_txid p = elim p.txid [ [] ↦ raise runtime_error | t ∷ ts ↦ ok t ]

module _ {W : Type 0} where
  -- The nonce is the new `_last_nonce` too.
  unfoldable pub next_nonce : ℕ → Client W → ℕ
  next_nonce candidate c = if ltb candidate (suc c.last_nonce) then suc c.last_nonce else candidate

  unfoldable pub sign : Codec W → Client W → String → ℕ → Dict String String → Result String
  sign codec c uri_path nonce fields =
      let digest =
        codec.sha256 (codec.encode (append (codec.str_int nonce) (codec.urlencode fields))) in
      elim (codec.b64decode c.api_secret) [
        | raise e ↦ raise e
        | ok key ↦ ok (codec.b64encode (codec.hmac_sha512 key (codec.encode uri_path ++ digest)))
      ]

  -- `_post_once` once the request is signed, by the client that holds its nonce.
  abbrev pub deliver :
      Turn W → String → Dict String String → Result String → Client W → Ending Payload × Client W
  deliver t endpoint fields (raise e) c = (raised e, c)
  deliver t endpoint fields (ok signature) c = (
    read_reply t.reply,
    record c {
      posted =
          record {
            endpoint = endpoint;
            fields = fields;
            nonce = c.last_nonce;
            signature = signature;
          }
          ∷ c.posted;
    },
  )

  -- `_post_once` from the nonce on.
  unfoldable pub send :
      Codec W → Turn W → String → Dict String String → Client W → Ending Payload × Client W
  unfolding next_nonce sign read_reply
  send codec t endpoint given c =
      let nonce = next_nonce t.wall_clock c in
      let fields = insert "nonce" (codec.str_int nonce) given in
      deliver t endpoint fields (sign codec c (append "/0/private/" endpoint) nonce fields)
        (record c { last_nonce = nonce })

module _ {W : Type 0} ⦃fl : Float W⦄ where
  -- `_post_once` after the bucket.
  abbrev pub go_on :
      Codec W
      → Turn W
      → String
      → Dict String String
      → Result Bool
      → Client W
      → Ending Payload × Client W
  go_on codec t endpoint fields (raise e) c = (raised e, c)
  go_on codec t endpoint fields (ok false) c = (waiting, c)
  go_on codec t endpoint fields (ok true) c = send codec t endpoint fields c

  unfoldable pub post_once :
      Codec W → Turn W → String → Dict String String → Client W → Ending Payload × Client W
  post_once codec t endpoint fields c =
      let (got, b) = acquire t.readings c.bucket in
      go_on codec t endpoint fields got (record c { bucket = b })

  -- The call that follows a first one.
  unfoldable pub retry :
      Codec W
      → Turn W
      → String
      → Dict String String
      → Ending Payload × Client W
      → Ending Payload × Client W
  retry codec t endpoint fields (bad_nonce, c) = post_once codec t endpoint fields c
  retry codec t endpoint fields (returned p, c) = (returned p, c)
  retry codec t endpoint fields (raised e, c) = (raised e, c)
  retry codec t endpoint fields (waiting, c) = (waiting, c)

  -- The turns of the first request and of the one that may follow.
  unfoldable pub post :
      Codec W → Turn W × Turn W → String → Dict String String → Client W → Ending Payload × Client W
  unfolding retry
  post codec (first, second) endpoint fields c =
      retry codec second endpoint fields (post_once codec first endpoint fields c)
