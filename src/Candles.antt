-- ===== src/Candles.antt =====
-- cryptotrader/candles.py: ticks folded into candles of one timeframe. `CandleBuilder` is the
-- object's state; `add_tick` returns the new state beside the method's result.
pub mod Boundary
pub mod Ohlc
pub mod Chunks
pub mod Replay
mod Tests
use Prim.Native.Nat.{◌+◌, ◌*◌, ◌/◌, ◌%◌}
use cryptotrader.Prelude.{
  ℕ, ◌==◌, if◌then◌else◌, Option, none, some, List, [], ◌∷◌, ◌++◌, Result, ok, raise, zero_division,
  ◌>>=◌, length, nat_eq,
}
use cryptotrader.Float.{Float, max, min}
use cryptotrader.Models.{PriceTick, Candle}
use cryptotrader.Models.Time.{DateTime, minute_of_day, time_eq}

-- `_candle_open`: the boundary at or before `ts`; `//` raises on a timeframe of 0.
unfoldable pub candle_open : ℕ → DateTime → Result DateTime
candle_open tf ts =
    let aligned = minute_of_day ts / tf * tf in
    if tf == 0
    then raise zero_division
    else ok (record ts { hour = aligned / 60; minute = aligned % 60; second = 0; microsecond = 0 })

module _ (W : Type 0) where
  pub record CandleBuilder : Type 0 where
    pub tf : ℕ
    pub current : Option (Candle W)
    pub completed : List (Candle W)

module _ {W : Type 0} where
  -- `CandleBuilder(timeframe_minutes)`
  abbrev pub new_builder : ℕ → CandleBuilder W
  new_builder tf = record { tf = tf; current = none; completed = [] }

  -- `load`: the history that a restart finds in the database.
  unfoldable pub load : CandleBuilder W → List (Candle W) → CandleBuilder W
  load b candles = record b { completed = candles }

  -- The properties `candles` and `count`.
  abbrev pub candles : CandleBuilder W → List (Candle W)
  candles b = b.completed

  abbrev pub count : CandleBuilder W → ℕ
  count b = length b.completed

  -- A candle of one tick.
  unfoldable pub start_candle : ℕ → DateTime → PriceTick W → Candle W
  start_candle tf boundary tick = record {
    pair = tick.pair;
    timeframe = tf;
    opening = tick.last;
    high = tick.last;
    low = tick.last;
    close = tick.last;
    tick_count = 1;
    timestamp = boundary;
  }

module _ {W : Type 0} ⦃fl : Float W⦄ where
  -- The update in place of the open candle.
  unfoldable pub update_candle : Candle W → PriceTick W → Candle W
  update_candle c tick = record c {
    high = max c.high tick.last;
    low = min c.low tick.last;
    close = tick.last;
    tick_count = c.tick_count + 1;
  }

  -- The body of `add_tick`, once the boundary is known.
  unfoldable pub place_tick :
      CandleBuilder W → DateTime → PriceTick W → CandleBuilder W × Option (Candle W)
  place_tick b boundary tick = elim b.current [
    | none ↦ (record b { current = some (start_candle b.tf boundary tick) }, none)
    | some c ↦
        if c.timestamp == boundary
        then (record b { current = some (update_candle c tick) }, none)
        else (
          record b {
            current = some (start_candle b.tf boundary tick);
            completed = b.completed ++ c ∷ [];
          },
          some c,
        )
  ]

  unfoldable pub add_tick :
      CandleBuilder W → PriceTick W → Result (CandleBuilder W × Option (Candle W))
  add_tick b tick = do boundary ← candle_open b.tf tick.timestamp; ok (place_tick b boundary tick)

  -- The calls for a stream of ticks, one after the other.
  unfoldable pub add_ticks : CandleBuilder W → List (PriceTick W) → Result (CandleBuilder W)
  add_ticks b [] = ok b
  add_ticks b (tick ∷ ticks) = add_tick b tick >>= λ r. add_ticks r.0 ticks
