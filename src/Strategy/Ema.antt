-- ===== src/Strategy/Ema.antt =====
-- cryptotrader/strategy/ema.py: a crossover of two EMAs with a floor on the ATR.
use Prim.Native.Nat.{◌+◌}
use cryptotrader.Prelude.{
  ℕ, String, Bool, true, false, not, ◌&&◌, if◌then◌else◌, ltb, Option, none, some, List, [], ◌∷◌,
  map, Result, ok, ◌>>=◌, length,
}
use cryptotrader.Float.{Float, ◌*◌, lit, le, lt, gt, ge, div}
use cryptotrader.Models.{PriceTick, Candle, Signal, buy_signal, sell_signal}
use cryptotrader.Database.{Database, insert_candle, query_candles}
use cryptotrader.Candles.{CandleBuilder, new_builder, add_tick, load, candles}
use cryptotrader.Indicators.{ema, atr}
use cryptotrader.Strategy.Belief.{Base, flat, arm_rollback}
use cryptotrader.Strategy.Threshold.{flag_only, set_flag, last_buy, restore_flag}

module _ {W : Type 0} where
  -- `xs[-1], xs[-2]` where there are two.
  abbrev pub last_two : List W → Option (W × W)
  last_two [] = none
  last_two (x ∷ []) = none
  last_two (x ∷ y ∷ []) = some (y, x)
  last_two (x ∷ y ∷ z ∷ xs) = last_two (y ∷ z ∷ xs)

  -- A completed candle goes to the database, once `restore` has set the path.
  unfoldable pub store_completed : Bool → Option (Candle W) → Database W → Database W
  store_completed has_path none db = db
  store_completed has_path (some c) db = if has_path then insert_candle db c else db

  -- `if candles: builder.load(candles)`
  unfoldable pub load_history : CandleBuilder W → List (Candle W) → CandleBuilder W
  load_history b [] = b
  load_history b (c ∷ cs) = load b (c ∷ cs)

module _ (W : Type 0) where
  pub record EmaParams : Type 0 where
    pub fast_period : ℕ
    pub slow_period : ℕ
    pub atr_period : ℕ
    pub atr_min_pct : W

  pub record EmaStrategy : Type 0 where
    pub base : Base W
    pub params : EmaParams
    pub hourly : CandleBuilder W
    pub has_path : Bool

module _ {W : Type 0} where
  unfoldable pub new_ema : EmaParams W → EmaStrategy W
  new_ema p = record { base = flat; params = p; hourly = new_builder 60; has_path = false }

  unfoldable pub restore_ema : EmaStrategy W → Database W → String → String → EmaStrategy W
  restore_ema s db pair mode = record s {
    has_path = true;
    hourly = load_history s.hourly (query_candles db pair 60 (s.params.slow_period + 10));
    base = restore_flag s.base (last_buy db pair mode "ema");
  }

module _ {W : Type 0} ⦃fl : Float W⦄ where
  -- The cross, from the current and the previous value of each EMA and the range in percent.
  unfoldable pub cross_ema : EmaStrategy W → W × W → W × W → W → EmaStrategy W × Option Signal
  cross_ema s (curr_fast, prev_fast) (curr_slow, prev_slow) atr_pct =
      if not s.base.position.in_position
      then (if le prev_fast prev_slow && gt curr_fast curr_slow && ge atr_pct s.params.atr_min_pct
          then (record s { base = set_flag (arm_rollback flag_only s.base) true }, some buy_signal)
          else (s, none))
      else (if ge prev_fast prev_slow && lt curr_fast curr_slow
          then (
            record s { base = set_flag (arm_rollback flag_only s.base) false },
            some sell_signal,
          )
          else (s, none))

  abbrev pub with_atr :
      EmaStrategy W
      → PriceTick W
      → W × W
      → W × W
      → Option W
      → Result (EmaStrategy W × Option Signal)
  with_atr s tick fast slow none = ok (s, none)
  with_atr s tick fast slow (some current_atr) =
      if fl.eq tick.last (lit 0)
      then ok (s, none)
      else div current_atr tick.last >>= λ r. ok (cross_ema s fast slow (r * lit 100))

  abbrev pub with_series :
      EmaStrategy W
      → PriceTick W
      → Option (W × W)
      → Option (W × W)
      → Result (EmaStrategy W × Option Signal)
  with_series s tick (some fast) (some slow) =
      atr (candles s.hourly) s.params.atr_period >>= λ a. with_atr s tick fast slow a
  with_series s tick _ _ = ok (s, none)

  -- `evaluate` on a completed candle.
  unfoldable pub decide_ema : EmaStrategy W → PriceTick W → Result (EmaStrategy W × Option Signal)
  decide_ema s tick =
      let closes = map (λ c. c.close) (candles s.hourly) in
      if ltb (length (candles s.hourly)) (s.params.slow_period + 2) then ok (s, none) else (do
        fast_s ← ema closes s.params.fast_period
        slow_s ← ema closes s.params.slow_period
        with_series s tick (last_two fast_s) (last_two slow_s))

  unfoldable pub evaluate_ema :
      EmaStrategy W → Database W → PriceTick W → Result (EmaStrategy W × Database W × Option Signal)
  evaluate_ema s db tick = do
    (hourly, completed) ← add_tick s.hourly tick
    let s' = record s { hourly = hourly }
    let db' = store_completed s.has_path completed db
    (t, signal) ← elim completed [ none ↦ ok (s', none) | some _ ↦ decide_ema s' tick ]
    ok (t, db', signal)
