-- ===== src/Strategy/Contract.antt =====
-- Every strategy keeps the contract of strategy/base.py.
use cryptotrader.Prelude.{◌≡◌, refl, subst, Option, Result, ok, ◌>>=◌}
use cryptotrader.Float.{Float}
use cryptotrader.Models.{PriceTick, Signal}
use cryptotrader.Database.{Database}
use cryptotrader.Strategy.Belief.{Base}
use cryptotrader.Strategy.Rollback.{Proposes, Kept, Kept-ok, kept, broken}
use cryptotrader.Strategy.Ema.{EmaStrategy, evaluate_ema}
use cryptotrader.Strategy.Bollinger.{BollingerStrategy, evaluate_bollinger}
use cryptotrader.Strategy.TrendPullback.{TrendPullbackStrategy, evaluate_trend_pullback}
use cryptotrader.Strategy.{
  Strategy, threshold_s, ema_s, bollinger_s, trend_pullback_s, evaluate, base_of,
}
use cryptotrader.Strategy.Proposals.{
  evaluate_threshold-Proposes, evaluate_ema-Kept, evaluate_bollinger-Kept,
  evaluate_trend_pullback-Kept,
}

module _ {W : Type 0} ⦃fl : Float W⦄ where
  -- Through the constructor of the class.
  wrap-Kept :
      {S : Type 0} (base : S → Base W) (wrap : S → Strategy W) (b : Base W)
      (m : Result (S × Database W × Option Signal))
      → ((s : S) → base_of (wrap s) ≡ base s)
      → Kept base b m
      → Kept base_of b (m >>= λ (t, db, g). ok (wrap t, db, g))
  wrap-Kept base wrap b _ h (kept r v) = kept _ (rw (h (r.0)) v)
  wrap-Kept base wrap b _ h (broken e) = broken e

  evaluate-Kept :
      (s : Strategy W) (db : Database W) (tick : PriceTick W)
      → Kept base_of (base_of s) (evaluate s db tick)
  unfolding evaluate
  evaluate-Kept (threshold_s s) db tick = kept _ (evaluate_threshold-Proposes s tick)
  evaluate-Kept (ema_s s) db tick =
      wrap-Kept (λ (t : EmaStrategy W). t.base) ema_s s.base (evaluate_ema s db tick) (λ t. refl)
        (evaluate_ema-Kept s db tick)
  evaluate-Kept (bollinger_s s) db tick =
      wrap-Kept (λ (t : BollingerStrategy W). t.base) bollinger_s s.base
        (evaluate_bollinger s db tick) (λ t. refl) (evaluate_bollinger-Kept s db tick)
  evaluate-Kept (trend_pullback_s s) db tick =
      wrap-Kept (λ (t : TrendPullbackStrategy W). t.base) trend_pullback_s s.base
        (evaluate_trend_pullback s db tick) (λ t. refl) (evaluate_trend_pullback-Kept s db tick)

  -- Whatever strategy it is and whatever it has seen, a call of `evaluate` that returns no signal
  -- has left the position and the rollback alone. With a BUY the belief went from flat to long,
  -- with a SELL from long to flat, and a refusal of the order gives the position back.
  pub evaluate-Proposes :
      (s : Strategy W) (db : Database W) (tick : PriceTick W) {t : Strategy W} {db' : Database W}
      {g : Option Signal}
      → evaluate s db tick ≡ ok (t, db', g)
      → Proposes (base_of s) (base_of t) g
  evaluate-Proposes s db tick e =
      Kept-ok _ _ (subst (Kept base_of (base_of s)) e (evaluate-Kept s db tick))
