-- ===== src/Exchange/Rest/Endpoints.antt =====
-- cryptotrader/exchange/kraken_rest.py: the methods of `KrakenRest` over `_post`.
use Prim.Native.String.{◌++◌ as append}
use cryptotrader.Prelude.{string_eq, ℕ, String, [], ◌∷◌, Result, ok, raise}
use cryptotrader.Prelude.Dict.{Dict, get_or}
use cryptotrader.Float.{Float}
use cryptotrader.Models.{Side}
use cryptotrader.Exchange.Rest.{
  Codec, Client, Payload, Turn, Ending, then_read, swallow, side_text, first_txid, post,
}

module _ {W : Type 0} ⦃fl : Float W⦄ where
  abbrev pub read_balances : Codec W → Dict String String → Result (Dict String W)
  read_balances codec [] = ok []
  read_balances codec ((k, v) ∷ rest) =
      let others = read_balances codec rest in
      elim (codec.read_float v) [
        | raise e ↦ raise e
        | ok x ↦ elim others [ raise e ↦ raise e | ok d ↦ ok ((k, x) ∷ d) ]
      ]

  abbrev pub read_by :
      {A : Type 0} → (Payload → Result A) → Ending Payload × Client W → Ending A × Client W
  read_by f (r, c) = (then_read r f, c)

  module _ (codec : Codec W) (turns : Turn W × Turn W) where
    unfoldable pub place_order : String → Side → W → Client W → Ending String × Client W
    place_order pair side volume c = read_by first_txid (
        post codec turns "AddOrder"
          (("pair", pair)
            ∷ ("type", side_text side)
            ∷ ("ordertype", "market")
            ∷ ("volume", codec.str_float volume)
            ∷ [])
          c)

    unfoldable pub place_post_only_limit :
        String → Side → W → W → ℕ → Client W → Ending String × Client W
    place_post_only_limit pair side volume price expire_seconds c = read_by first_txid (
        post codec turns "AddOrder"
          (("pair", pair)
            ∷ ("type", side_text side)
            ∷ ("ordertype", "limit")
            ∷ ("price", codec.str_float price)
            ∷ ("volume", codec.str_float volume)
            ∷ ("oflags", "post")
            ∷ ("expiretm", append "+" (codec.str_int expire_seconds))
            ∷ [])
          c)

    unfoldable pub order_status : String → Client W → Ending (Dict String String) × Client W
    order_status txid c =
        read_by (λ p. ok (get_or txid [] p.orders))
          (post codec turns "QueryOrders" (("txid", txid) ∷ []) c)

    unfoldable pub cancel_order : String → Client W → Ending (Unit {0}) × Client W
    cancel_order txid c =
        let (r, c') = post codec turns "CancelOrder" (("txid", txid) ∷ []) c in (swallow r, c')

    unfoldable pub get_balance : Client W → Ending (Dict String W) × Client W
    get_balance c = read_by (λ p. read_balances codec p.amounts) (post codec turns "Balance" [] c)
