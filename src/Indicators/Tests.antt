-- ===== src/Indicators/Tests.antt =====
-- Runs of cryptotrader/strategy/_indicators.py, and the theorems about it at concrete inputs.
use cryptotrader.Prelude.{ℕ, ◌≡◌, refl, arith, ok, some, List, [], ◌∷◌}
use cryptotrader.Prelude.Int.{ℤ, pos, ◌+ℤ◌, ◌*ℤ◌, ◌-ℤ◌}
use cryptotrader.Float.{div_int}
use cryptotrader.Float.Cents.{cents_float}
use cryptotrader.Models.{Candle}
use cryptotrader.Indicators.{bollinger_bands}
use cryptotrader.Indicators.Window.{bollinger_bands-append}
use cryptotrader.Samples.{at}

abbrev closes : List ℤ
closes = pos 10 ∷ pos 14 ∷ pos 12 ∷ []

abbrev bar : ℕ → ℕ → Candle ℤ
bar low high = record {
  pair = "BTC/USD";
  timeframe = 60;
  opening = pos low;
  high = pos high;
  low = pos low;
  close = pos high;
  tick_count = 2;
  timestamp = at 9 0;
}

abbrev bars : List (Candle ℤ)
bars = bar 10 12 ∷ bar 11 15 ∷ bar 13 19 ∷ bar 18 20 ∷ []

bands_of : bollinger_bands closes 2 (pos 2) ≡ ok (some (pos 15, pos 13, pos 11))
unfolding bollinger_bands div_int ◌+ℤ◌ ◌*ℤ◌ ◌-ℤ◌
bands_of = refl

bollinger_bands-append_example :
    bollinger_bands (pos 99 ∷ closes) 2 (pos 2) ≡ bollinger_bands closes 2 (pos 2)
bollinger_bands-append_example =
    bollinger_bands-append (pos 99 ∷ []) closes 2 (pos 2) (omega arith) (omega arith)
