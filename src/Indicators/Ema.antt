-- ===== src/Indicators/Ema.antt =====
-- The length of an EMA series, and when it raises.
use Prim.Native.Nat.{◌+◌}
use cryptotrader.Prelude.{
  ℕ, suc, ◌≤◌, ◌<◌, ◌≡◌, refl, List, [], ◌∷◌, ok, length, take, drop, length-drop, arith, ap,
}
use cryptotrader.Float.{Float, div_int, lit}
use cryptotrader.Indicators.{ema, ema_from}

module _ {W : Type 0} ⦃fl : Float W⦄ where
  length-ema_from : (k : W) (vs : List W) (last : W) → length (ema_from k last vs) ≡ length vs
  unfolding ema_from
  length-ema_from k [] last = refl
  length-ema_from k (v ∷ vs) last = ap suc (length-ema_from k vs _)

  abbrev pub seed_of : List W → ℕ → W
  seed_of values period = fl.quot (fl.sum (take period values)) (lit period)

  abbrev weight : ℕ → W
  weight period = fl.quot (lit 2) (lit (suc period))

  -- The EMA of enough values over a positive period is a series that is shorter than the values by
  -- `period - 1`, and begins with the mean of the first `period` values.
  pub length-ema :
      (values : List W) (period : ℕ)
      → period ≤ length values
      → 0 < period
      → (rest : List W) × (ema values period ≡ ok (seed_of values period ∷ rest))
        × (length rest + period ≡ length values)
  unfolding ema div_int
  length-ema values period enough positive = (
    ema_from (weight period) (seed_of values period) (drop period values),
    ground arith,
    omega (
      arith,
      length-ema_from (weight period) (drop period values) (seed_of values period),
      length-drop period values,
    ),
  )
