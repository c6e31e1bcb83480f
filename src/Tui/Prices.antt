-- ===== src/Tui/Prices.antt =====
-- cryptotrader/tui/price_panel.py. A cell holds its value with the digits that it is shown with.
pub mod Latest
use cryptotrader.Prelude.{
  ℕ, String, Bool, string_eq, if◌then◌else◌, Option, none, some, [], List, ◌∷◌, foldl,
}
use cryptotrader.Prelude.Dict.{Dict, lookup, insert}
use cryptotrader.Float.{Float, lit, gt, lt, ge}
use cryptotrader.Models.{PriceTick}
use cryptotrader.Models.Time.{DateTime}

pub data Direction : Type 0 where
  rising falling level : Direction

module _ (W : Type 0) where
  -- A row of the table, by its pair.
  pub record PriceRow : Type 0 where
    pub bid : W × ℕ
    pub ask : W × ℕ
    pub last : W × ℕ
    pub arrow : Direction
    pub updated : DateTime × Bool

  pub record PricePanel : Type 0 where
    pub table : Dict String PriceRow
    pub last_prices : Dict String W

module _ {W : Type 0} ⦃fl : Float W⦄ where
  abbrev pub direction : W → W → Direction
  direction prev current =
      if gt current prev then rising else if lt current prev then falling else level

  abbrev pub arrow_from : Option W → W → Direction
  arrow_from none current = level
  arrow_from (some prev) current = direction prev current

  -- The digits of `_fmt`.
  abbrev pub digits : W → ℕ
  digits p =
      if ge p (lit 100)
      then 2
      else if ge p (lit 1)
      then 4
      else if ge p (fl.quot (lit 1) (lit 100))
      then 5
      else 6

  abbrev pub price_row : Bool → Option W → PriceTick W → PriceRow W
  price_row use_utc prev tick = record {
    bid = (tick.bid, digits tick.bid);
    ask = (tick.ask, digits tick.ask);
    last = (tick.last, digits tick.last);
    arrow = arrow_from prev tick.last;
    updated = (tick.timestamp, use_utc);
  }

  -- A known row has its cells changed, and a new one is added at the end.
  unfoldable pub update_tick : Bool → PricePanel W → PriceTick W → PricePanel W
  update_tick use_utc p tick = record {
    table = insert tick.pair (price_row use_utc (lookup tick.pair p.last_prices) tick) p.table;
    last_prices = insert tick.pair tick.last p.last_prices;
  }

  -- `_consume_prices` over the ticks of its queue.
  unfoldable pub update_all : Bool → PricePanel W → List (PriceTick W) → PricePanel W
  update_all use_utc = foldl (update_tick use_utc)
