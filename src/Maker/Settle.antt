-- ===== src/Maker/Settle.antt =====
-- cryptotrader/maker.py, `reconcile`: the resting orders against the records of the exchange.
use cryptotrader.Prelude.{
  String, ◌==◌, string_eq, pair_eq, if◌then◌else◌, Option, none, some, List, [], ◌∷◌, ◌++◌, Result,
  ok, raise,
}
use cryptotrader.Prelude.Dict.{keys}
use cryptotrader.Float.{Float, lit, gt}
use cryptotrader.Models.{Trade}
use cryptotrader.Models.Time.{DateTime, not_after}
use cryptotrader.Desk.{Desk, RestingEntry, cancel}
use cryptotrader.Maker.{Writes, fill, no_fill, drop_key, each_key}

-- The field `status` of an order record, in lower case.
pub data Status : Type 0 where
  closed canceled expired working : Status

-- What `order_status` returns, with `vol_exec` and `price` read as numbers, 0 where they are absent.
pub record OrderRecord (W : Type 0) : Type 0 where
  pub status : Status
  pub vol_exec : W
  pub price : W

module _ {W : Type 0} ⦃fl : Float W⦄ where
  -- `x or y` on numbers
  abbrev pub or_else : W → W → W
  or_else x y = if fl.eq x (lit 0) then y else x

  abbrev pub nonzero : W → Option W
  nonzero x = if fl.eq x (lit 0) then none else some x

module _ {W C : Type 0} ⦃fl : Float W⦄ where
  -- One resting order against the record that the exchange gave.
  unfoldable pub settle_order :
      Writes
      → DateTime
      → String
      → OrderRecord W
      → String × String
      → RestingEntry W C
      → Desk W C
      → List (Trade W) × Desk W C
  settle_order writes now txid rec key entry d =
      let avg_price = or_else rec.price entry.limit_price in
      let gone = drop_key key d in
      let filled = λ (q : Option W).
        (let (t, d') = fill writes entry avg_price q now gone in
          let out : List (Trade W) × Desk W C = (t ∷ [], d') in out) in
      let cancelled : List (Trade W) × Desk W C =
        if gt rec.vol_exec (lit 0)
        then filled (some rec.vol_exec)
        else ([], no_fill writes entry now gone) in
      elim rec.status [
        | closed ↦ filled (nonzero rec.vol_exec)
        | canceled ↦ cancelled
        | expired ↦ cancelled
        | working ↦
            if not_after entry.deadline now
            then ([], no_fill writes entry now (record gone { sent = d.sent ++ cancel txid ∷ [] }))
            else ([], d)
      ]

  -- An order that could not be queried is left resting.
  abbrev pub settle_answer :
      Writes
      → DateTime
      → String
      → Result (OrderRecord W)
      → String × String
      → RestingEntry W C
      → Desk W C
      → List (Trade W) × Desk W C
  settle_answer writes now txid (raise e) key entry d = ([], d)
  settle_answer writes now txid (ok rec) key entry d = settle_order writes now txid rec key entry d

  -- An entry with no order id is left resting.
  abbrev pub query_order :
      Writes
      → (String → Result (OrderRecord W))
      → DateTime
      → Option String
      → String × String
      → RestingEntry W C
      → Desk W C
      → List (Trade W) × Desk W C
  query_order writes order_status now none key entry d = ([], d)
  query_order writes order_status now (some txid) key entry d =
      if txid == "" then ([], d) else settle_answer writes now txid (order_status txid) key entry d

  -- The body of the loop in `reconcile`.
  unfoldable pub reconcile_entry :
      Writes
      → (String → Result (OrderRecord W))
      → DateTime
      → String × String
      → RestingEntry W C
      → Desk W C
      → List (Trade W) × Desk W C
  reconcile_entry writes order_status now key entry d =
      query_order writes order_status now entry.txid key entry d

  -- `reconcile`, where the book has a client
  unfoldable pub reconcile :
      Writes → (String → Result (OrderRecord W)) → DateTime → Desk W C → List (Trade W) × Desk W C
  reconcile writes order_status now d =
      each_key (reconcile_entry writes order_status now) (keys d.resting) d
