-- ===== src/Candles/Tests.antt =====
-- Runs of cryptotrader/candles.py, and the theorems about it at concrete inputs.
use cryptotrader.Prelude.{◌≡◌, refl, arith, Result, ok, [], ◌∷◌, map}
use cryptotrader.Prelude.Int.{ℤ, pos}
use cryptotrader.Float.Cents.{cents_float, Cents-IsOrdered}
use cryptotrader.Models.Time.{DateTime, IsTime}
use cryptotrader.Candles.{
  raise, candle_open, CandleBuilder, new_builder, add_ticks, add_tick, place_tick, start_candle,
  update_candle, candles,
}
use cryptotrader.Candles.Ohlc.{HasOhlc, add_ticks-HasOhlc}
use cryptotrader.Candles.Chunks.{all_candles}
use cryptotrader.Candles.Replay.{Replays, add_ticks-Replays}
use cryptotrader.Samples.{at, some_ticks}

abbrev nine : DateTime
nine = record { day = 100; hour = 9; minute = 0; second = 0; microsecond = 0 }

opens : candle_open 60 (at 9 30) ≡ ok nine
unfolding candle_open
opens = refl

closed_highs :
    (elim (add_ticks (new_builder {W = ℤ} 60) some_ticks) [
      | raise e ↦ []
      | ok b ↦ map (λ c. c.high) (candles b)
    ])
    ≡ pos 120 ∷ []
unfolding add_ticks add_tick place_tick start_candle update_candle candle_open
closed_highs = refl

half_past : IsTime (at 9 30)
half_past = omega arith

add_ticks-Replays_example :
    (b : CandleBuilder ℤ) × (add_ticks (new_builder 60) some_ticks ≡ ok b)
    × Replays 60 some_ticks (all_candles b)
add_ticks-Replays_example = add_ticks-Replays 60 some_ticks (omega arith)

abbrev run : Result (CandleBuilder ℤ)
run = add_ticks (new_builder 60) some_ticks

abbrev builder_of : Result (CandleBuilder ℤ) → CandleBuilder ℤ
builder_of (ok b) = b
builder_of (raise e) = new_builder 60

empty_HasOhlc : HasOhlc (new_builder {W = ℤ} 60)
empty_HasOhlc = record { closed = tt; current = tt }

run-ok : run ≡ ok (builder_of run)
unfolding add_ticks add_tick place_tick start_candle update_candle candle_open
run-ok = refl

add_ticks-HasOhlc_example : HasOhlc (builder_of run)
add_ticks-HasOhlc_example =
    add_ticks-HasOhlc Cents-IsOrdered (new_builder 60) some_ticks empty_HasOhlc run-ok
