-- ===== src/Exchange/Rest/Tests.antt =====
-- A client that places an order, with a first nonce that the exchange turns down.
use cryptotrader.Prelude.{◌≡◌, refl, List, [], ◌∷◌, ok}
use cryptotrader.Prelude.Int.{ℤ, pos, ◌+ℤ◌, ◌-ℤ◌, ◌*ℤ◌}
use cryptotrader.Float.{div}
use cryptotrader.Float.Cents.{cents_float}
use cryptotrader.Models.{Side}
use cryptotrader.Exchange.Bucket.{refill, nap, spend, acquire}
use cryptotrader.Exchange.Rest.{
  Codec, Client, Payload, body, Turn, returned, tells_bad_nonce, read_reply, next_nonce, sign, send,
  post_once, retry, post,
}
use cryptotrader.Exchange.Rest.Endpoints.{place_order}
use cryptotrader.Exchange.Rest.Nonces.{
  Call, places, balance, perform_all, HasFreshNonces, perform_all-HasFreshNonces,
}
use cryptotrader.Exchange.Rest.Retry.{Posts, post-Posts}

abbrev codec : Codec ℤ
codec = record {
  str_int = λ n. "7";
  str_float = λ x. "0.5";
  read_float = λ s. ok (pos 5);
  urlencode = λ d. "a=b";
  encode = λ s. 1 ∷ [];
  sha256 = λ b. b;
  hmac_sha512 = λ k m. m;
  b64decode = λ s. ok [];
  b64encode = λ b. "c2ln";
}

abbrev client : Client ℤ
client = record {
  api_key = "key";
  api_secret = "secret";
  bucket = record { capacity = pos 15; tokens = pos 15; refill_rate = pos 1; last_refill = pos 0 };
  last_nonce = 41;
  posted = [];
}

abbrev placed : Payload
placed = record { txid = "T1" ∷ []; orders = []; amounts = [] }

abbrev turned_down : Turn ℤ
turned_down = record {
  readings = pos 0 ∷ [];
  wall_clock = 40;
  reply = body ("EAPI:Invalid nonce" ∷ []) placed;
}

abbrev accepted : Turn ℤ
accepted = record { readings = pos 0 ∷ []; wall_clock = 50; reply = body [] placed }

places_once_more :
    (place_order codec (turned_down, accepted) "XXBTZUSD" Side.buy (pos 5) client).0 ≡ returned "T1"
unfolding place_order post retry post_once send sign next_nonce read_reply tells_bad_nonce acquire
    refill nap spend div ◌+ℤ◌ ◌-ℤ◌ ◌*ℤ◌
places_once_more = refl

post-Posts_example :
    Posts codec "AddOrder" []
      (turned_down, accepted)
      client
      (post codec (turned_down, accepted) "AddOrder" [] client).0
      (post codec (turned_down, accepted) "AddOrder" [] client).1
post-Posts_example = post-Posts codec "AddOrder" [] (turned_down, accepted) client

-- The wall clock goes back between the calls.
abbrev two_calls : List ((Turn ℤ × Turn ℤ) × Call ℤ)
two_calls =
    ((turned_down, accepted), places "XXBTZUSD" Side.buy (pos 5))
    ∷ ((record accepted { wall_clock = 3 }, accepted), balance)
    ∷ []

perform_all-HasFreshNonces_example : HasFreshNonces (perform_all codec two_calls client)
perform_all-HasFreshNonces_example = perform_all-HasFreshNonces codec two_calls client tt
