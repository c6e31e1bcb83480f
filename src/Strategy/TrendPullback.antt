-- ===== src/Strategy/TrendPullback.antt =====
-- cryptotrader/strategy/trend_pullback.py: entries on a pullback within a rising trend.
use Prim.Native.Nat.{◌+◌}
use cryptotrader.Prelude.{
  ℕ, String, Bool, true, false, not, ◌&&◌, ◌||◌, if◌then◌else◌, ltb, Option, none, some, List, map,
  Result, ok, index_error, ◌>>=◌, length, or_raise,
}
use cryptotrader.Float.{Float, le, lt, gt}
use cryptotrader.Models.{PriceTick, Signal, buy_signal, sell_signal}
use cryptotrader.Database.{Database, query_candles}
use cryptotrader.Candles.{CandleBuilder, new_builder, add_tick, candles}
use cryptotrader.Indicators.{ema}
use cryptotrader.Strategy.Belief.{Base, flat, arm_rollback}
use cryptotrader.Strategy.Threshold.{flag_only, set_flag, last_buy, restore_flag}
use cryptotrader.Strategy.Ema.{last_two, store_completed, load_history}

pub record TrendPullbackParams : Type 0 where
  pub trend_ema_period : ℕ
  pub pullback_ema_period : ℕ

module _ (W : Type 0) where
  pub record TrendPullbackStrategy : Type 0 where
    pub base : Base W
    pub params : TrendPullbackParams
    pub candles_1h : CandleBuilder W
    pub candles_4h : CandleBuilder W
    pub has_path : Bool

module _ {W : Type 0} where
  unfoldable pub new_trend_pullback : TrendPullbackParams → TrendPullbackStrategy W
  new_trend_pullback p = record {
    base = flat;
    params = p;
    candles_1h = new_builder 60;
    candles_4h = new_builder 240;
    has_path = false;
  }

  unfoldable pub restore_trend_pullback :
      TrendPullbackStrategy W → Database W → String → String → TrendPullbackStrategy W
  restore_trend_pullback s db pair mode = record s {
    has_path = true;
    candles_1h =
        load_history s.candles_1h (query_candles db pair 60 (s.params.pullback_ema_period + 10));
    candles_4h =
        load_history s.candles_4h (query_candles db pair 240 (s.params.trend_ema_period + 10));
    base = restore_flag s.base (last_buy db pair mode "trend_pullback");
  }

module _ {W : Type 0} ⦃fl : Float W⦄ where
  -- The decision, from the trend and the current and previous close and pullback EMA.
  unfoldable pub pull_back :
      TrendPullbackStrategy W → Bool → W × W → W × W → TrendPullbackStrategy W × Option Signal
  pull_back s trend_up (curr_close, prev_close) (curr_pb, prev_pb) =
      if not s.base.position.in_position
      then (if trend_up && le prev_close prev_pb && gt curr_close curr_pb
          then (record s { base = set_flag (arm_rollback flag_only s.base) true }, some buy_signal)
          else (s, none))
      else (if not trend_up || lt curr_close curr_pb
          then (
            record s { base = set_flag (arm_rollback flag_only s.base) false },
            some sell_signal,
          )
          else (s, none))

  abbrev pub with_pullback :
      TrendPullbackStrategy W → W × W → List W → Result (TrendPullbackStrategy W × Option Signal)
  with_pullback s (curr, prev) closes = ema closes s.params.pullback_ema_period >>= λ pb_ema.
      elim (last_two pb_ema) [
        | none ↦ ok (s, none)
        | some pb ↦ or_raise index_error (last_two closes) >>= λ close.
            ok (pull_back s (gt curr prev) close pb)
      ]

  -- `evaluate` on a completed hourly candle.
  unfoldable pub decide_trend_pullback :
      TrendPullbackStrategy W → Result (TrendPullbackStrategy W × Option Signal)
  decide_trend_pullback s =
      if ltb (length (candles s.candles_4h)) (s.params.trend_ema_period + 2)
        || ltb (length (candles s.candles_1h)) (s.params.pullback_ema_period + 2)
      then ok (s, none)
      else (do
        trend_ema ← ema (map (λ c. c.close) (candles s.candles_4h)) s.params.trend_ema_period
        elim (last_two trend_ema) [
          | none ↦ ok (s, none)
          | some trend ↦ with_pullback s trend (map (λ c. c.close) (candles s.candles_1h))
        ])

  unfoldable pub evaluate_trend_pullback :
      TrendPullbackStrategy W
      → Database W
      → PriceTick W
      → Result (TrendPullbackStrategy W × Database W × Option Signal)
  evaluate_trend_pullback s db tick = do
    (candles_1h, completed_1h) ← add_tick s.candles_1h tick
    (candles_4h, completed_4h) ← add_tick s.candles_4h tick
    let db_a = store_completed s.has_path completed_1h db
    let db_b = store_completed s.has_path completed_4h db_a
    let s' = record s { candles_1h = candles_1h; candles_4h = candles_4h }
    (t, signal) ← elim completed_1h [ none ↦ ok (s', none) | some _ ↦ decide_trend_pullback s' ]
    ok (t, db_b, signal)
