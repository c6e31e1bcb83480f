-- ===== src/Strategy/Bollinger.antt =====
-- cryptotrader/strategy/bollinger.py: breakout above the upper band, exit by the stop-loss or below
-- the middle band, with a gate on small profits and a filter on the trend.
use Prim.Native.Nat.{◌+◌ as plus}
use cryptotrader.Prelude.{
  ℕ, String, Bool, true, false, not, ◌&&◌, if◌then◌else◌, ltb, Option, none, some, List, [], ◌∷◌,
  map, Result, ok, index_error, ◌>>=◌, length, last?, drop_last, or_raise,
}
use cryptotrader.Float.{Float, ◌+◌, ◌-◌, ◌*◌, lit, le, lt, gt, ge, div}
use cryptotrader.Models.{PriceTick, Candle, Trade, Signal, buy_signal, sell_signal}
use cryptotrader.Database.{Database, query_candles}
use cryptotrader.Candles.{CandleBuilder, new_builder, add_tick, candles}
use cryptotrader.Indicators.{ema, bollinger_bands}
use cryptotrader.Strategy.Belief.{
  Base, Attr, in_position_attr, entry_price_attr, flat, arm_rollback,
}
use cryptotrader.Strategy.Threshold.{last_buy}
use cryptotrader.Strategy.Ema.{last_two, store_completed, load_history}

-- `BollingerStrategy.POSITION_ATTRS`
abbrev pub flag_and_entry : List Attr
flag_and_entry = in_position_attr ∷ entry_price_attr ∷ []

module _ (W : Type 0) where
  pub record BollingerParams : Type 0 where
    pub period : ℕ
    pub std_dev : W
    pub min_band_width_pct : W
    pub fee_pct : W
    pub stop_loss_pct : W
    pub trend_filter_enabled : Bool
    pub trend_timeframe_minutes : ℕ
    pub trend_ema_period : ℕ

  pub record BollingerStrategy : Type 0 where
    pub base : Base W
    pub params : BollingerParams
    pub hourly : CandleBuilder W
    pub trend_candles : Option (CandleBuilder W)
    pub has_path : Bool
    pub last_band_width : Option W

module _ {W : Type 0} where
  unfoldable pub new_bollinger : BollingerParams W → BollingerStrategy W
  new_bollinger p = record {
    base = flat;
    params = p;
    hourly = new_builder 60;
    trend_candles =
        if p.trend_filter_enabled then some (new_builder p.trend_timeframe_minutes) else none;
    has_path = false;
    last_band_width = none;
  }

  abbrev pub restore_entry : Base W → Option (Trade W) → Base W
  restore_entry b none = b
  restore_entry b (some t) = record b {
    position = record { in_position = true; entry_price = some t.price };
  }

  abbrev pub restore_trend : Option (CandleBuilder W) → List (Candle W) → Option (CandleBuilder W)
  restore_trend none cs = none
  restore_trend (some b) cs = some (load_history b cs)

  unfoldable pub restore_bollinger :
      BollingerStrategy W → Database W → String → String → BollingerStrategy W
  restore_bollinger s db pair mode = record s {
    has_path = true;
    hourly = load_history s.hourly (query_candles db pair 60 (plus s.params.period 10));
    trend_candles = restore_trend s.trend_candles (
        query_candles db pair s.params.trend_timeframe_minutes (plus s.params.trend_ema_period 10));
    base = restore_entry s.base (last_buy db pair mode "bollinger");
  }

module _ {W : Type 0} ⦃fl : Float W⦄ where
  abbrev pub rising : Option (W × W) → Bool
  rising none = false
  rising (some (curr, prev)) = gt curr prev

  -- `_trend_is_up`
  unfoldable pub trend_is_up : BollingerStrategy W → Result Bool
  trend_is_up s = elim s.trend_candles [
    | none ↦ ok true
    | some b ↦ ema (map (λ c. c.close) (candles b)) s.params.trend_ema_period >>= λ trend.
        ok (rising (last_two trend))
  ]

  -- The stop-loss: `close <= entry * (1 - stop / 100)`, when it is set and the entry is known.
  unfoldable pub stop_hit : BollingerStrategy W → W → Bool
  stop_hit s last_close = elim s.base.position.entry_price [
    | none ↦ false
    | some entry ↦
        gt s.params.stop_loss_pct (lit 0)
        && le last_close (entry * (lit 1 - fl.quot s.params.stop_loss_pct (lit 100)))
  ]

  -- The gate: the move does not cover the fee of both legs.
  unfoldable pub gate_blocks : BollingerStrategy W → W → Bool
  gate_blocks s last_close = elim s.base.position.entry_price [
    | none ↦ false
    | some entry ↦
        gt s.params.fee_pct (lit 0)
        && lt (last_close - entry) (fl.quot ((last_close + entry) * s.params.fee_pct) (lit 100))
  ]

  unfoldable pub enter : BollingerStrategy W → W → W → BollingerStrategy W
  enter s last_close curr_width = record s {
    base = record (arm_rollback flag_and_entry s.base) {
      position = record { in_position = true; entry_price = some last_close };
    };
    last_band_width = some (fl.round4 curr_width);
  }

  unfoldable pub leave : BollingerStrategy W → W → BollingerStrategy W
  leave s curr_width = record s {
    base = record (arm_rollback flag_and_entry s.base) {
      position = record { in_position = false; entry_price = none };
    };
    last_band_width = some (fl.round4 curr_width);
  }

  -- The `else` branch: in a position.
  unfoldable pub exit_check : BollingerStrategy W → W → W → W → BollingerStrategy W × Option Signal
  exit_check s last_close curr_mid curr_width =
      if stop_hit s last_close
      then (leave s curr_width, some sell_signal)
      else if lt last_close curr_mid && not (gate_blocks s last_close)
      then (leave s curr_width, some sell_signal)
      else (s, none)

  -- `curr_bw_pct`
  unfoldable pub width_pct : BollingerStrategy W → W → W → Result W
  width_pct s curr_width curr_mid =
      if fl.eq s.params.min_band_width_pct (lit 0)
      then ok (lit 0)
      else (div curr_width curr_mid >>= λ r. ok (r * lit 100))

  -- The breakout; the trend is asked for only when the other conditions hold.
  unfoldable pub entry_check :
      BollingerStrategy W → W → W × W × W → W × W × W → Result (BollingerStrategy W × Option Signal)
  entry_check s last_close (curr_upper, curr_mid, curr_lower) (prev_upper, prev_mid, prev_lower) =
      let curr_width = curr_upper - curr_lower in
      let prev_width = prev_upper - prev_lower in
      do
        ratio ← width_pct s curr_width curr_mid
        if s.base.position.in_position
            then ok (exit_check s last_close curr_mid curr_width)
            else (if gt last_close curr_upper
                  && gt curr_width prev_width
                  && ge ratio s.params.min_band_width_pct
                then (trend_is_up s >>= λ up.
                    ok (if up then (enter s last_close curr_width, some buy_signal) else (s, none)))
                else ok (s, none))

  abbrev pub with_bands :
      BollingerStrategy W
      → Option (W × W × W)
      → Option (W × W × W)
      → Result (BollingerStrategy W × Option Signal)
  with_bands s (some curr) (some prev) =
      or_raise index_error (last? (candles s.hourly)) >>= λ c. entry_check s c.close curr prev
  with_bands s _ _ = ok (s, none)

  -- `evaluate` on a completed candle.
  unfoldable pub decide_bollinger :
      BollingerStrategy W → Result (BollingerStrategy W × Option Signal)
  decide_bollinger s =
      let closes = map (λ c. c.close) (candles s.hourly) in
      if ltb (length (candles s.hourly)) (plus s.params.period 2) then ok (s, none) else (do
        curr ← bollinger_bands closes s.params.period s.params.std_dev
        prev ← bollinger_bands (drop_last closes) s.params.period s.params.std_dev
        with_bands s curr prev)

  -- The trend candles, where the filter is on.
  abbrev pub add_trend_tick :
      Option (CandleBuilder W) → PriceTick W → Result (Option (CandleBuilder W) × Option (Candle W))
  add_trend_tick none tick = ok (none, none)
  add_trend_tick (some b) tick = add_tick b tick >>= λ r. ok (some r.0, r.1)

  unfoldable pub evaluate_bollinger :
      BollingerStrategy W
      → Database W
      → PriceTick W
      → Result (BollingerStrategy W × Database W × Option Signal)
  evaluate_bollinger s db tick = do
    (hourly, completed) ← add_tick s.hourly tick
    let db_a = store_completed s.has_path completed db
    (trend, trend_completed) ← add_trend_tick s.trend_candles tick
    let db_b = store_completed s.has_path trend_completed db_a
    let s' = record s { hourly = hourly; trend_candles = trend }
    (t, signal) ← elim completed [ none ↦ ok (s', none) | some _ ↦ decide_bollinger s' ]
    ok (t, db_b, signal)
