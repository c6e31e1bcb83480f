-- ===== src/Statistics.antt =====
-- cryptotrader/statistics.py: figures derived from the trade log. The configured database and the
-- clock are arguments.
pub mod Counts
pub mod Fifo
pub mod Held
pub mod Daily
pub mod Names
mod Tests
use Prim.Native.Nat.{◌+◌ as plus}
use cryptotrader.Prelude.{
  ℕ, suc, String, if◌then◌else◌, Option, none, some, List, [], ◌∷◌, ◌++◌, foldl, length, nat_beq,
  string_eq,
}
use cryptotrader.Prelude.Dict.{Dict, get_or, insert}
use cryptotrader.Float.{Float, ◌+◌, ◌-◌, ◌*◌, lit, le, max, floor_8dp}
use cryptotrader.Models.{Trade, Side, StatsResult}
use cryptotrader.Models.Time.{DateTime, midnight}
use cryptotrader.Database.{Database, Filters, no_filters, query_trades}

-- One position: a pair, a mode and, where it is given, a strategy.
abbrev pub position_filters : String → String → Option String → Filters
position_filters pair mode strategy = record no_filters {
  pair = some pair;
  mode = some mode;
  strategy = strategy;
}

module _ (W : Type 0) where
  -- The variables of the loop in `compute`.
  pub record Tally : Type 0 where
    pub gains : List W
    pub losses : List W
    pub open_buys : Dict String (List (Trade W))
    pub buys : ℕ
    pub sells : ℕ

module _ {W : Type 0} where
  abbrev pub empty_tally : Tally W
  empty_tally = record { gains = []; losses = []; open_buys = []; buys = 0; sells = 0 }

module _ {W : Type 0} ⦃fl : Float W⦄ where
  -- A round trip that the sell closes.
  unfoldable pub book : Tally W → W → Tally W
  book s pnl =
      if le (lit 0) pnl
      then record s { gains = s.gains ++ pnl ∷ [] }
      else record s { losses = s.losses ++ pnl ∷ [] }

  -- The sell's branch: `pop(0)` on the open buys of the pair, if there are any.
  unfoldable pub close_oldest : Tally W → Trade W → List (Trade W) → Tally W
  close_oldest s trade [] = s
  close_oldest s trade (bought ∷ rest) =
      book (record s { open_buys = insert trade.pair rest s.open_buys })
        ((trade.price - bought.price) * trade.quantity)

  unfoldable pub count_trade : Tally W → Trade W → Tally W
  count_trade s trade = elim trade.side [
    | Side.buy ↦ record s {
      buys = suc s.buys;
      open_buys = insert trade.pair (get_or trade.pair [] s.open_buys ++ trade ∷ []) s.open_buys;
    }
    | Side.sell ↦
        close_oldest (record s { sells = suc s.sells }) trade (get_or trade.pair [] s.open_buys)
  ]

  unfoldable pub tally : List (Trade W) → Tally W
  tally = foldl count_trade empty_tally

  -- `len(xs) / len(ys)` and the means, which the code guards against an empty list.
  abbrev pub mean : List W → W
  mean [] = lit 0
  mean (x ∷ xs) = fl.quot (fl.sum (x ∷ xs)) (lit (length (x ∷ xs)))

  unfoldable pub result_of : Tally W → StatsResult W
  result_of s =
      let completed = plus (length s.gains) (length s.losses) in
      record {
        total_trades = completed;
        win_rate =
            if nat_beq completed 0
            then lit 0
            else fl.quot (lit (length s.gains)) (lit completed) * lit 100;
        total_pnl = fl.sum s.gains + fl.sum s.losses;
        avg_gain = mean s.gains;
        avg_loss = mean s.losses;
        buys = s.buys;
        sells = s.sells;
      }

  -- `compute` on the trades that its query returns; the early return serves an empty log.
  unfoldable pub stats_of : List (Trade W) → StatsResult W
  stats_of [] = record {
    total_trades = 0;
    win_rate = lit 0;
    total_pnl = lit 0;
    avg_gain = lit 0;
    avg_loss = lit 0;
    buys = 0;
    sells = 0;
  }
  stats_of (t ∷ ts) = result_of (tally (t ∷ ts))

  unfoldable pub compute : Database W → Filters → StatsResult W
  compute db f = stats_of (query_trades db f)

  -- The loop of `realized_pnl_for_sell`: the buys that are still open.
  unfoldable pub open_step : List (Trade W) → Trade W → List (Trade W)
  open_step open_buys t = elim t.side [
    | Side.buy ↦ open_buys ++ t ∷ []
    | Side.sell ↦ elim open_buys [ [] ↦ [] | _ ∷ rest ↦ rest ]
  ]

  unfoldable pub open_after : List (Trade W) → List (Trade W)
  open_after = foldl open_step []

  unfoldable pub pnl_against : List (Trade W) → W → W → Option W
  pnl_against [] sell_price sell_quantity = none
  pnl_against (bought ∷ _) sell_price sell_quantity =
      some ((sell_price - bought.price) * sell_quantity)

  unfoldable pub realized_pnl_for_sell :
      Database W → String → String → W → W → Option String → Option W
  realized_pnl_for_sell db pair mode sell_price sell_quantity strategy =
      pnl_against (open_after (query_trades db (position_filters pair mode strategy))) sell_price
        sell_quantity

  -- The loop of `open_position_quantity`.
  unfoldable pub held_step : W → Trade W → W
  held_step qty t = elim t.side [
    | Side.buy ↦ qty + t.quantity
    | Side.sell ↦ max (lit 0) (qty - t.quantity)
  ]

  unfoldable pub held_after : List (Trade W) → W
  held_after = foldl held_step (lit 0)

  unfoldable pub open_position_quantity : Database W → String → String → Option String → W
  open_position_quantity db pair mode strategy =
      floor_8dp (held_after (query_trades db (position_filters pair mode strategy)))

  unfoldable pub daily_pnl : Database W → String → DateTime → W
  daily_pnl db mode now =
      (compute db (record no_filters { mode = some mode; since = some (midnight now) })).total_pnl
