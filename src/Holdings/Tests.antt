-- ===== src/Holdings/Tests.antt =====
-- Runs of cryptotrader/reconcile.py, and the theorem about it at a concrete log.
use cryptotrader.Prelude.{◌++◌, ◌≡◌, refl, some, [], ◌∷◌, string_eq}
use cryptotrader.Prelude.Dict.{lookup}
use cryptotrader.Prelude.Int.{ℤ, pos, negsuc, ◌+ℤ◌, ◌-ℤ◌, ◌*ℤ◌}
use cryptotrader.Float.{floor_8dp}
use cryptotrader.Float.Cents.{cents_float}
use cryptotrader.Models.{Side}
use cryptotrader.Database.{Database, order_by, insert_by}
use cryptotrader.Executor.Quote.{kraken_asset, before_slash}
use cryptotrader.Holdings.{
  ordered_rows, OpenPosition, ledger_holdings, ledger_low_water_by_pair, low_step, open_positions,
  walk, walk_step,
}
use cryptotrader.Samples.{at, row, db_of}

-- Sold two of one, then bought three.
abbrev oversold : Database ℤ
oversold = db_of (
    row Side.buy (at 7 0) 100 100000000 "production"
    ∷ row Side.sell (at 8 0) 110 200000000 "production"
    ∷ row Side.buy (at 9 0) 90 300000000 "production"
    ∷ [])

abbrev shown : OpenPosition ℤ
shown = record {
  pair = "BTC/USD";
  quantity = pos 300000000;
  entry_price = pos 90;
  opened_at = at 9 0;
}

nets_two : ledger_holdings oversold "production" ≡ ("XXBT", pos 200000000) ∷ []
unfolding ledger_holdings kraken_asset before_slash ◌+ℤ◌ ◌-ℤ◌
nets_two = refl

lowest : ledger_low_water_by_pair oversold "production" ≡ ("BTC/USD", negsuc 99999999) ∷ []
unfolding ledger_low_water_by_pair low_step order_by insert_by ◌+ℤ◌ ◌-ℤ◌
lowest = refl

holds_three : lookup "BTC/USD" (open_positions oversold "production") ≡ some shown
unfolding open_positions walk walk_step order_by insert_by floor_8dp ◌+ℤ◌ ◌-ℤ◌ ◌*ℤ◌
holds_three = refl

first_rows :
    ordered_rows oversold "production"
    ≡ (row Side.buy (at 7 0) 100 100000000 "production"
        ∷ row Side.sell (at 8 0) 110 200000000 "production"
        ∷ [])
      ++ row Side.buy (at 9 0) 90 300000000 "production" ∷ []
unfolding order_by insert_by
first_rows = refl
