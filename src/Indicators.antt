-- ===== src/Indicators.antt =====
-- cryptotrader/strategy/_indicators.py: EMA, ATR and Bollinger bands. A period is a number of at
-- least 0; a period of 0 divides by zero, as in the source.
pub mod Ema
pub mod Window
mod Tests
use Prim.Native.Nat.{◌-◌}
use cryptotrader.Prelude.{
  ℕ, suc, ltb, if◌then◌else◌, Option, none, some, List, [], ◌∷◌, map, Result, ok, ◌>>=◌, length,
  take, drop, take_last,
}
use cryptotrader.Float.{Float, ◌+◌, ◌*◌, ◌-◌ as minus, lit, max, abs, div_int}
use cryptotrader.Models.{Candle}

module _ {W : Type 0} ⦃fl : Float W⦄ where
  -- The loop of `ema`: the values behind the one last appended.
  unfoldable pub ema_from : W → W → List W → List W
  ema_from k last [] = []
  ema_from k last (v ∷ vs) =
      let next : W = v * k + last * minus (lit 1) k in next ∷ ema_from k next vs

  unfoldable pub ema : List W → ℕ → Result (List W)
  ema values period = if ltb (length values) period then ok [] else (do
    k ← div_int (lit 2) (suc period)
    seed ← div_int (fl.sum (take period values)) period
    ok (seed ∷ ema_from k seed (drop period values)))

  unfoldable pub true_range : W → Candle W → W
  true_range prev_close c =
      max (max (minus c.high c.low) (abs (minus c.high prev_close))) (abs (minus c.low prev_close))

  -- The loop of `atr`, over a candle and its successors.
  unfoldable pub true_ranges : List (Candle W) → List W
  true_ranges [] = []
  true_ranges (prev ∷ []) = []
  true_ranges (prev ∷ c ∷ cs) = true_range prev.close c ∷ true_ranges (c ∷ cs)

  -- `range(max(1, len - period - 1), len)` looks at each candle and the one before it.
  unfoldable pub atr : List (Candle W) → ℕ → Result (Option W)
  atr candles period =
      if ltb (length candles) (suc period)
      then ok none
      else (let start = length candles - period - 1 in
          let trs = true_ranges (drop (start - 1) candles) in
          let recent = take_last period trs in
          do mean ← div_int (fl.sum recent) (length recent); ok (some mean))

  -- Upper, middle and lower band.
  unfoldable pub bollinger_bands : List W → ℕ → W → Result (Option (W × W × W))
  bollinger_bands values period std_dev =
      if ltb (length values) period
      then ok none
      else (let window = take_last period values in
          do
            mid ← div_int (fl.sum window) period
            variance ← div_int (fl.sum (map (λ v. fl.square (minus v mid)) window)) period
            let sigma : W = fl.sqrt variance
            ok (some (mid + std_dev * sigma, mid, minus mid (std_dev * sigma))))
