-- ===== src/Backtest/Coherent.antt =====
-- The books of a replay: its trades, its counts and its position agree.
use cryptotrader.Prelude.{
  ℕ, suc, ◌≡◌, true, false, Bool, not, Option, none, some, List, [], ◌∷◌, ◌++◌, ok, ◌&&◌, arith,
  if◌then◌else◌, if-elim,
}
use cryptotrader.Float.{Float}
use cryptotrader.Models.Time.{DateTime}
use cryptotrader.Backtest.Data.{Replay, Outcome, Setting}
use cryptotrader.Backtest.Rules.{entry_ok, trend_up_at, trend_series}
use cryptotrader.Indicators.{bollinger_bands}
use cryptotrader.Backtest.Loop.{
  enter_if, flat_hour, trade_hour, banded_hour, replay, new_replay, run, sized, cooling, too_early,
  benchmark,
}
use cryptotrader.Backtest.Books.{
  IsCoherent, Keeps, kept, Keeps-bind, Keeps-then, Keeps_lem, new_replay-IsCoherent,
  open_position-IsCoherent, hold_hour-Keeps,
}

module _ {W : Type 0} ⦃fl : Float W⦄ where
  enter_if-Keeps :
      (g : Setting W) (ts : DateTime) (close : W) (s : Replay W) (enter : Bool)
      → s.in_pos ≡ false
      → IsCoherent s
      → Keeps IsCoherent (enter_if g ts close s enter)
  enter_if-Keeps g ts close s false off h = kept h
  enter_if-Keeps g ts close s true off h =
      Keeps-bind (sized g close) _
        (λ qty. kept (open_position-IsCoherent g.params ts close qty s off h))

  flat_hour-Keeps :
      (trunc : W → ℕ) (g : Setting W) (trend : List (DateTime × Bool)) (ts : DateTime)
      (close upper width prev_width bw_pct : W) (hist : List W) (s : Replay W)
      → s.in_pos ≡ false
      → IsCoherent s
      → Keeps IsCoherent (flat_hour trunc g trend ts close upper width prev_width bw_pct hist s)
  unfolding flat_hour
  flat_hour-Keeps trunc g trend ts close upper width prev_width bw_pct hist s off h =
      if-elim (Keeps IsCoherent) (cooling g.params ts s.last_exit_ts) _ _ (λ _. kept h)
        (λ _.
          if-elim (Keeps IsCoherent) (g.params.trend_filter && not (trend_up_at trend ts)) _ _
            (λ _. kept h)
            (λ _.
              Keeps-bind (entry_ok trunc g.params close upper width prev_width bw_pct hist) _
                (λ enter. enter_if-Keeps g ts close s enter off h)))

  counted-IsCoherent :
      (s : Replay W) (hist : List W)
      → IsCoherent s
      → IsCoherent (record s { bw_hist = hist; hours_total = suc s.hours_total })
  counted-IsCoherent s hist h = record {
    alternate = h.alternate;
    has_entry = h.has_entry;
    wins_le = h.wins_le;
    trips_le = h.trips_le;
    hours_le = omega (arith, h.hours_le);
  }

  seen-IsCoherent :
      (s : Replay W) (hist : List W) → IsCoherent s → IsCoherent (record s { bw_hist = hist })
  seen-IsCoherent s hist h = record {
    alternate = h.alternate;
    has_entry = h.has_entry;
    wins_le = h.wins_le;
    trips_le = h.trips_le;
    hours_le = h.hours_le;
  }

  trade_hour-Keeps :
      (trunc : W → ℕ) (g : Setting W) (trend : List (DateTime × Bool)) (candle : DateTime × W)
      (curr prev : W × W × W) (s : Replay W)
      → IsCoherent s
      → Keeps IsCoherent (trade_hour trunc g trend candle curr prev s)
  unfolding trade_hour
  trade_hour-Keeps trunc g trend (ts, close) (upper, mid, lower) (pupper, pmid, plower) s h =
      if-elim (Keeps IsCoherent) (too_early g.trade_from ts) _ _ (λ _. kept (seen-IsCoherent s _ h))
        (λ _.
          if-elim (Keeps IsCoherent) s.in_pos _ _
            (λ on.
              hold_hour-Keeps g.params ts close mid _ on (counted-IsCoherent s _ h)
                (omega (arith, h.hours_le)))
            (λ off.
              flat_hour-Keeps trunc g trend ts close upper _ _ _ s.bw_hist _ off
                (counted-IsCoherent s _ h)))

  banded_hour-Keeps :
      (trunc : W → ℕ) (g : Setting W) (trend : List (DateTime × Bool)) (candle : DateTime × W)
      (curr prev : Option (W × W × W)) (s : Replay W)
      → IsCoherent s
      → Keeps IsCoherent (banded_hour trunc g trend candle curr prev s)
  banded_hour-Keeps trunc g trend candle none prev s h = kept h
  banded_hour-Keeps trunc g trend candle (some curr) none s h = kept h
  banded_hour-Keeps trunc g trend candle (some curr) (some prev) s h =
      trade_hour-Keeps trunc g trend candle curr prev s h

  replay-Keeps :
      (trunc : W → ℕ) (g : Setting W) (trend : List (DateTime × Bool)) (closes : List W)
      (candles : List (DateTime × W)) (s : Replay W)
      → IsCoherent s
      → Keeps IsCoherent (replay trunc g trend closes candles s)
  unfolding replay
  replay-Keeps trunc g trend closes [] s h = kept h
  replay-Keeps trunc g trend closes ((ts, close) ∷ rest) s h =
      Keeps-bind (bollinger_bands (closes ++ close ∷ []) g.params.period g.params.std_dev) _
        (λ curr. Keeps-bind (bollinger_bands closes g.params.period g.params.std_dev) _ (λ prev.
          Keeps-then _ (banded_hour-Keeps trunc g trend (ts, close) curr prev s h)
            (replay-Keeps trunc g trend (closes ++ close ∷ []) rest)))

  run-Keeps :
      (trunc : W → ℕ) (g : Setting W) (c60 c240 : List (DateTime × W))
      → Keeps (λ o. IsCoherent o.replay) (run trunc g c60 c240)
  unfolding run
  run-Keeps trunc g c60 c240 =
      Keeps-bind (if g.params.trend_filter then trend_series c240 g.params.trend_period else ok [])
        _
        (λ trend.
          Keeps-then _ (replay-Keeps trunc g trend [] c60 new_replay new_replay-IsCoherent)
            (λ s h. Keeps-bind (benchmark g _) _ (λ held. kept h)))

  -- A replay that returns has coherent books: buys and sells alternate from a buy on, and end with a
  -- position exactly if the last is a buy; the position has its entry; there are no more wins than
  -- round trips, no more round trips than hours with a position, and no more of those than hours.
  pub run-IsCoherent :
      (trunc : W → ℕ) (g : Setting W) (c60 c240 : List (DateTime × W)) (o : Outcome W)
      → run trunc g c60 c240 ≡ ok o
      → IsCoherent o.replay
  run-IsCoherent trunc g c60 c240 o e = Keeps_lem (run-Keeps trunc g c60 c240) e
