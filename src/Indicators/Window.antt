-- ===== src/Indicators/Window.antt =====
-- What an indicator forgets: the Bollinger bands and the ATR look at the newest values only, so a
-- history that is cut at its old end, as a restart cuts it, gives the same figures.
use Prim.Native.Nat.{◌-◌, ◌+◌}
use cryptotrader.Prelude.{
  ℕ, suc, zero, ◌≤◌, ◌<◌, ◌≡◌, List, [], ◌∷◌, ◌++◌, ok, length, take_last, drop, length-append,
  length-drop, arith, ap, some,
}
use cryptotrader.Float.{Float, div_int, lit}
use cryptotrader.Models.{Candle}
use cryptotrader.Indicators.{bollinger_bands, atr, true_ranges}

drop-append_length {ℓ} :
    {A : Type ℓ} (xs ys : List A) (n m : ℕ) → n ≡ length xs + m → drop n (xs ++ ys) ≡ drop m ys
drop-append_length [] ys n m e = rw e (ap (λ (k : ℕ). drop k ys) (omega arith))
drop-append_length (x ∷ xs) ys zero m e = absurd (omega arith)
drop-append_length (x ∷ xs) ys (suc n) m e = drop-append_length xs ys n m (omega arith)

take_last-append {ℓ} :
    {A : Type ℓ} (xs ys : List A) (n : ℕ)
    → 0 < n
    → n ≤ length ys
    → take_last n (xs ++ ys) ≡ take_last n ys
take_last-append xs ys zero h k = absurd (omega arith)
take_last-append xs ys (suc n) h k =
    drop-append_length xs ys _ (length ys - suc n) (omega (arith, length-append xs ys))

length-take_last {ℓ} :
    {A : Type ℓ} (xs : List A) (n : ℕ) → 0 < n → n ≤ length xs → length (take_last n xs) ≡ n
length-take_last xs zero h k = absurd (omega arith)
length-take_last xs (suc n) h k = omega (arith, length-drop (length xs - suc n) xs)

module _ {W : Type 0} ⦃fl : Float W⦄ where
  -- The bands over a history depend on its newest `period` values alone.
  pub bollinger_bands-append :
      (old new : List W) (period : ℕ) (std_dev : W)
      → 0 < period
      → period ≤ length new
      → bollinger_bands (old ++ new) period std_dev ≡ bollinger_bands new period std_dev
  unfolding bollinger_bands
  bollinger_bands-append old new period std_dev h k =
      rw (take_last-append old new period h k) (ground (arith, length-append old new))

  -- The ATR over a history depends on its newest `period + 2` candles alone.
  pub atr-append :
      (old new : List (Candle W)) (period : ℕ)
      → suc (suc period) ≤ length new
      → atr (old ++ new) period ≡ atr new period
  unfolding atr
  atr-append old new period k =
      let n = length (old ++ new) - period - 1 - 1 in
      let m = length new - period - 1 - 1 in
      rw (drop-append_length old new n m (omega (arith, length-append old new)))
        (ground (arith, length-append old new))

  length-true_ranges : (cs : List (Candle W)) → length (true_ranges cs) ≡ length cs - 1
  unfolding true_ranges
  length-true_ranges [] = omega arith
  length-true_ranges (c ∷ []) = omega arith
  length-true_ranges (c ∷ d ∷ cs) = omega (arith, length-true_ranges (d ∷ cs))

  -- The ATR over a positive period is the mean of exactly `period` true ranges.
  pub atr_period :
      (cs : List (Candle W)) (period : ℕ)
      → 0 < period
      → period < length cs
      → (trs : List W) × (length trs ≡ period)
        × (atr cs period ≡ ok (some (fl.quot (fl.sum trs) (lit period))))
  unfolding atr div_int
  atr_period cs period h k =
      let window = drop (length cs - period - 1 - 1) cs in
      let trs = take_last period (true_ranges window) in
      let size : length trs ≡ period =
        length-take_last (true_ranges window) period h
          (omega (arith, length-true_ranges window, length-drop (length cs - period - 1 - 1) cs)) in
      (trs, size, rw size (ground arith))
