-- ===== src/Holdings.antt =====
-- cryptotrader/reconcile.py: what the trade log says is held, by pair.
pub mod Low
mod Tests
use cryptotrader.Prelude.{
  String, ◌==◌, string_eq, if◌then◌else◌, Option, none, some, List, [], ◌∷◌, ◌++◌, foldl, filter,
}
use cryptotrader.Prelude.Dict.{Dict, lookup, get_or, insert, erase}
use cryptotrader.Float.{Float, ◌+◌, ◌-◌, neg, lit, le, gt, max, min, floor_8dp}
use cryptotrader.Models.{Trade, Side}
use cryptotrader.Models.Time.{DateTime}
use cryptotrader.Database.{Database, order_by}
use cryptotrader.Executor.Quote.{kraken_asset}

module _ (W : Type 0) where
  pub record OpenPosition : Type 0 where
    pub pair : String
    pub quantity : W
    pub entry_price : W
    pub opened_at : DateTime

  -- The dicts `qty` and `entry` of `open_positions`.
  pub record Walk : Type 0 where
    pub qty : Dict String W
    pub opened : Dict String (W × DateTime)

  -- The dicts `running` and `low` of `ledger_low_water_by_pair`.
  pub record LowWater : Type 0 where
    pub running : Dict String W
    pub low : Dict String W

-- An item of a comprehension, where its condition holds.
abbrev pub put : {V : Type 0} → String → Option V → Dict String V → Dict String V
put key none d = d
put key (some v) d = (key, v) ∷ d

module _ {W : Type 0} where
  -- `SELECT ... FROM trades WHERE mode = ?`, and the same `ORDER BY timestamp ASC`.
  abbrev pub rows_of : Database W → String → List (Trade W)
  rows_of db mode = filter (λ t. t.mode == mode) db.trades

  abbrev pub ordered_rows : Database W → String → List (Trade W)
  ordered_rows db mode = order_by (λ t. t.timestamp) (rows_of db mode)

module _ {W : Type 0} ⦃fl : Float W⦄ where
  abbrev pub change : Trade W → W
  change t = elim t.side [ Side.buy ↦ t.quantity | Side.sell ↦ neg t.quantity ]

  abbrev pub add_to : String → W → Dict String W → Dict String W
  add_to key x d = insert key (get_or key (lit 0) d + x) d

  unfoldable pub ledger_holdings : Database W → String → Dict String W
  ledger_holdings db mode =
      foldl (λ d t. add_to (kraken_asset t.pair) (change t) d) [] (rows_of db mode)

  unfoldable pub ledger_net_by_pair : Database W → String → Dict String W
  ledger_net_by_pair db mode = foldl (λ d t. add_to t.pair (change t) d) [] (rows_of db mode)

  unfoldable pub low_step : LowWater W → Trade W → LowWater W
  low_step s t =
      let now = get_or t.pair (lit 0) s.running + change t in
      record {
        running = insert t.pair now s.running;
        low = insert t.pair (min (get_or t.pair (lit 0) s.low) now) s.low;
      }

  unfoldable pub ledger_low_water_by_pair : Database W → String → Dict String W
  ledger_low_water_by_pair db mode =
      (foldl low_step (record { running = []; low = [] }) (ordered_rows db mode)).low

  unfoldable pub walk_step : Walk W → Trade W → Walk W
  walk_step s t =
      let before = get_or t.pair (lit 0) s.qty in
      let left = max (lit 0) (before - t.quantity) in
      elim t.side [
        | Side.buy ↦ record {
          qty = insert t.pair (before + t.quantity) s.qty;
          opened =
              if le before (lit 0) then insert t.pair (t.price, t.timestamp) s.opened else s.opened;
        }
        | Side.sell ↦ record {
          qty = insert t.pair left s.qty;
          opened = if le left (lit 0) then erase t.pair s.opened else s.opened;
        }
      ]

  unfoldable pub walk : List (Trade W) → Walk W
  walk = foldl walk_step (record { qty = []; opened = [] })

  abbrev pub position_of : String → W → Option (W × DateTime) → Option (OpenPosition W)
  position_of pair q none = none
  position_of pair q (some (price, at)) =
      if gt (floor_8dp q) (lit 0)
      then some
          (record { pair = pair; quantity = floor_8dp q; entry_price = price; opened_at = at })
      else none

  -- The comprehension over `qty.items()`.
  abbrev pub held_in : Dict String (W × DateTime) → Dict String W → Dict String (OpenPosition W)
  held_in opened [] = []
  held_in opened ((pair, q) ∷ rest) =
      put pair (position_of pair q (lookup pair opened)) (held_in opened rest)

  unfoldable pub open_positions : Database W → String → Dict String (OpenPosition W)
  open_positions db mode = let s = walk (ordered_rows db mode) in held_in s.opened s.qty
