-- ===== src/Strategy/Proposals.antt =====
-- Each strategy by itself: what it does to the position and the rollback.
use Prim.Native.Nat.{◌+◌}
use cryptotrader.Prelude.{
  drop_last, ◌&&◌, ◌||◌, ◌≡◌, refl, Bool, true, false, Option, none, some, List, map, ok, ◌>>=◌,
  arith, if◌then◌else◌, last?, or_raise, index_error, ltb, length,
}
use cryptotrader.Float.{Float, lit, div, gt, ge}
use cryptotrader.Models.{PriceTick, Candle, Signal, buy_signal}
use cryptotrader.Database.{Database}
use cryptotrader.Candles.{add_tick, candles}
use cryptotrader.Indicators.{ema, atr, bollinger_bands}
use cryptotrader.Strategy.Rollback.{
  Proposes, Good, Good-bind, Good-if, Kept, returned, Kept-bind, Kept-completed, set_flag-Proposes,
  set_both-Proposes,
}
use cryptotrader.Strategy.Threshold.{ThresholdStrategy, evaluate_threshold}
use cryptotrader.Strategy.Ema.{
  last_two, EmaStrategy, cross_ema, with_atr, with_series, decide_ema, evaluate_ema,
}
use cryptotrader.Strategy.Bollinger.{
  BollingerStrategy, width_pct, exit_check, entry_check, enter, leave, trend_is_up, with_bands,
  decide_bollinger, add_trend_tick, evaluate_bollinger,
}
use cryptotrader.Strategy.TrendPullback.{
  TrendPullbackStrategy, pull_back, with_pullback, decide_trend_pullback, evaluate_trend_pullback,
}

module _ {W : Type 0} ⦃fl : Float W⦄ where
  pub evaluate_threshold-Proposes :
      (s : ThresholdStrategy W) (tick : PriceTick W)
      → let (t, g) = evaluate_threshold s tick in Proposes s.base t.base g
  unfolding evaluate_threshold
  evaluate_threshold-Proposes s tick = ground (arith, set_flag-Proposes s.base)

  cross_ema-Proposes :
      (s : EmaStrategy W) (fast slow : W × W) (r : W)
      → let (t, g) = cross_ema s fast slow r in Proposes s.base t.base g
  unfolding cross_ema
  cross_ema-Proposes s fast slow r = ground (arith, set_flag-Proposes s.base)

  with_atr-Good :
      (s : EmaStrategy W) (tick : PriceTick W) (fast slow : W × W) (a : Option W)
      → Good (λ (t : EmaStrategy W). t.base) s.base (with_atr s tick fast slow a)
  with_atr-Good s tick fast slow none = returned (s, none) refl
  with_atr-Good s tick fast slow (some a) =
      Good-if _ s.base (fl.eq tick.last (lit 0)) _ _ (λ _. returned (s, none) refl)
        (λ _.
          Good-bind _ s.base (div a tick.last) _
            (λ r. returned _ (cross_ema-Proposes s fast slow _)))

  with_series-Good :
      (s : EmaStrategy W) (tick : PriceTick W) (fast slow : Option (W × W))
      → Good (λ (t : EmaStrategy W). t.base) s.base (with_series s tick fast slow)
  with_series-Good s tick (some fast) (some slow) =
      Good-bind _ s.base (atr (candles s.hourly) s.params.atr_period) _
        (with_atr-Good s tick fast slow)
  with_series-Good s tick (some fast) none = returned (s, none) refl
  with_series-Good s tick none slow = returned (s, none) refl

  decide_ema-Good :
      (s : EmaStrategy W) (tick : PriceTick W)
      → Good (λ (t : EmaStrategy W). t.base) s.base (decide_ema s tick)
  unfolding decide_ema
  decide_ema-Good s tick =
      let closes = map (λ (c : Candle W). c.close) (candles s.hourly) in
      let few = ltb (length (candles s.hourly)) (s.params.slow_period + 2) in
      Good-if _ s.base few _ _ (λ _. returned (s, none) refl)
        λ _. Good-bind _ s.base (ema closes s.params.fast_period) _ λ fast.
          Good-bind _ s.base (ema closes s.params.slow_period) _
            λ slow. with_series-Good s tick (last_two fast) (last_two slow)

  pub evaluate_ema-Kept :
      (s : EmaStrategy W) (db : Database W) (tick : PriceTick W)
      → Kept (λ (t : EmaStrategy W). t.base) s.base (evaluate_ema s db tick)
  unfolding evaluate_ema
  evaluate_ema-Kept s db tick = Kept-bind _ s.base (add_tick s.hourly tick) _ λ r.
      let s' : EmaStrategy W = record s { hourly = r.0 } in
      Kept-completed _ s.base r.1 s' (decide_ema s' tick) _ refl (decide_ema-Good s' tick)

  exit_check-Proposes :
      (s : BollingerStrategy W) (close mid width : W)
      → s.base.position.in_position ≡ true
      → let (t, g) = exit_check s close mid width in Proposes s.base t.base g
  unfolding exit_check leave
  exit_check-Proposes s close mid width long =
      ground (arith, set_both-Proposes s.base (record { in_position = false; entry_price = none }))

  entry_check-Good :
      (s : BollingerStrategy W) (close : W) (curr prev : W × W × W)
      → Good (λ (t : BollingerStrategy W). t.base) s.base (entry_check s close curr prev)
  unfolding entry_check enter
  entry_check-Good s close curr prev =
      let width = fl.sub curr.0 curr.2 in
      let breakout = λ (ratio : W).
        gt close curr.0
        && gt width (fl.sub prev.0 prev.2)
        && ge ratio s.params.min_band_width_pct in
      Good-bind _ s.base (width_pct s width curr.1) _ λ ratio.
        Good-if _ s.base s.base.position.in_position _ _
          (λ long. returned _ (exit_check-Proposes s close _ _ long))
          λ out.
            Good-if _ s.base (breakout ratio) _ _
              (λ _. Good-bind _ s.base (trend_is_up s) _ (λ up. returned _ (entered out up)))
              (λ _. returned (s, none) refl)
    where
      entered :
          s.base.position.in_position ≡ false
          → (up : Bool)
          → let r : BollingerStrategy W × Option Signal =
              if up then (enter s close (fl.sub curr.0 curr.2), some buy_signal) else (s, none) in
            Proposes s.base (r.0).base r.1
      entered out true =
          (set_both-Proposes s.base (record { in_position = true; entry_price = some close })).0 out
            refl
      entered out false = refl

  decide_bollinger-Good :
      (s : BollingerStrategy W)
      → Good (λ (t : BollingerStrategy W). t.base) s.base (decide_bollinger s)
  unfolding decide_bollinger
  decide_bollinger-Good s =
      let closes = map (λ (c : Candle W). c.close) (candles s.hourly) in
      let bands = λ (values : List W). bollinger_bands values s.params.period s.params.std_dev in
      let few = ltb (length (candles s.hourly)) (s.params.period + 2) in
      Good-if _ s.base few _ _ (λ _. returned (s, none) refl)
        λ _.
          Good-bind _ s.base (bands closes) _
            λ curr. Good-bind _ s.base (bands (drop_last closes)) _ λ prev. banded curr prev
    where
      banded :
          (curr prev : Option (W × W × W))
          → Good (λ (t : BollingerStrategy W). t.base) s.base (with_bands s curr prev)
      banded (some curr) (some prev) =
          Good-bind _ s.base (or_raise index_error (last? (candles s.hourly))) _
            λ c. entry_check-Good s c.close curr prev
      banded (some curr) none = returned (s, none) refl
      banded none prev = returned (s, none) refl

  pub evaluate_bollinger-Kept :
      (s : BollingerStrategy W) (db : Database W) (tick : PriceTick W)
      → Kept (λ (t : BollingerStrategy W). t.base) s.base (evaluate_bollinger s db tick)
  unfolding evaluate_bollinger
  evaluate_bollinger-Kept s db tick = Kept-bind _ s.base (add_tick s.hourly tick) _ λ r.
      Kept-bind _ s.base (add_trend_tick s.trend_candles tick) _ λ q.
        let s' : BollingerStrategy W = record s { hourly = r.0; trend_candles = q.0 } in
        Kept-completed _ s.base r.1 s' (decide_bollinger s') _ refl (decide_bollinger-Good s')

  pull_back-Proposes :
      (s : TrendPullbackStrategy W) (up : Bool) (close pb : W × W)
      → let (t, g) = pull_back s up close pb in Proposes s.base t.base g
  unfolding pull_back
  pull_back-Proposes s up close pb = ground (arith, set_flag-Proposes s.base)

  with_pullback-Good :
      (s : TrendPullbackStrategy W) (trend : W × W) (closes : List W)
      → Good (λ (t : TrendPullbackStrategy W). t.base) s.base (with_pullback s trend closes)
  with_pullback-Good s trend closes =
      Good-bind _ s.base (ema closes s.params.pullback_ema_period) _
        λ pb_ema. dipped (last_two pb_ema)
    where
      dipped :
          (pb : Option (W × W))
          → Good
              (λ (t : TrendPullbackStrategy W). t.base)
              s.base
              (elim pb [
                | none ↦ ok (s, none)
                | some pb ↦ or_raise index_error (last_two closes) >>= λ close.
                    ok (pull_back s (gt trend.0 trend.1) close pb)
              ])
      dipped none = returned (s, none) refl
      dipped (some pb) =
          Good-bind _ s.base (or_raise index_error (last_two closes)) _
            λ close. returned _ (pull_back-Proposes s _ close pb)

  decide_trend_pullback-Good :
      (s : TrendPullbackStrategy W)
      → Good (λ (t : TrendPullbackStrategy W). t.base) s.base (decide_trend_pullback s)
  unfolding decide_trend_pullback
  decide_trend_pullback-Good s =
      let closes = map (λ (c : Candle W). c.close) (candles s.candles_4h) in
      let few =
        ltb (length (candles s.candles_4h)) (s.params.trend_ema_period + 2)
        || ltb (length (candles s.candles_1h)) (s.params.pullback_ema_period + 2) in
      Good-if _ s.base few _ _ (λ _. returned (s, none) refl)
        λ _.
          Good-bind _ s.base (ema closes s.params.trend_ema_period) _
            λ trend. judged (last_two trend)
    where
      judged :
          (trend : Option (W × W))
          → Good
              (λ (t : TrendPullbackStrategy W). t.base)
              s.base
              (elim trend [
                | none ↦ ok (s, none)
                | some trend ↦ with_pullback s trend (map (λ c. c.close) (candles s.candles_1h))
              ])
      judged none = returned (s, none) refl
      judged (some trend) = with_pullback-Good s trend _

  pub evaluate_trend_pullback-Kept :
      (s : TrendPullbackStrategy W) (db : Database W) (tick : PriceTick W)
      → Kept (λ (t : TrendPullbackStrategy W). t.base) s.base (evaluate_trend_pullback s db tick)
  unfolding evaluate_trend_pullback
  evaluate_trend_pullback-Kept s db tick = Kept-bind _ s.base (add_tick s.candles_1h tick) _ λ r.
      Kept-bind _ s.base (add_tick s.candles_4h tick) _ λ q.
        let s' : TrendPullbackStrategy W = record s { candles_1h = r.0; candles_4h = q.0 } in
        Kept-completed _ s.base r.1 s' (decide_trend_pullback s') _ refl
          (decide_trend_pullback-Good s')
