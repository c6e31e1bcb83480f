-- ===== src/Trader/Loop.antt =====
-- cryptotrader/trader.py: a strategy's turn, and which mode asks whom about resting entries.
use cryptotrader.Prelude.{
  if◌then◌else◌, String, Bool, true, false, ◌≡◌, refl, sym, ap, ◌∙◌, arith, ◌&&◌, ◌==◌, string_eq,
  Option, none, some, [], Result, ok, raise, Error, ◌>>=◌,
}
use cryptotrader.Float.{Float}
use cryptotrader.Models.{PriceTick, Signal}
use cryptotrader.Models.Time.{DateTime}
use cryptotrader.Database.{Database}
use cryptotrader.Desk.{Desk}
use cryptotrader.Strategy.{
  Strategy, threshold_s, ema_s, bollinger_s, trend_pullback_s, name_of, base_of, evaluate,
}
use cryptotrader.Strategy.Ema.{evaluate_ema}
use cryptotrader.Strategy.Bollinger.{evaluate_bollinger}
use cryptotrader.Strategy.TrendPullback.{evaluate_trend_pullback}
use cryptotrader.Strategy.Contract.{evaluate-Proposes}
use cryptotrader.Maker.{Writes, is_resting}
use cryptotrader.Maker.Settle.{OrderRecord}
use cryptotrader.Executor.{Settings}
use cryptotrader.Trader.{Callback, Trader, Turn, act_on, run_strategy, resolve_book, reconcile_pass}
use cryptotrader.Trader.Signals.{Ends, on_signal-Ends}

neither : {A : Type 0} (b : Bool) (x y : A) → (if b && false then x else y) ≡ y
neither b x y = ground arith

module _ {W : Type 0} where
  -- The name of what `evaluate` returned, or another text where it raised.
  abbrev pub name_after : String → Result (Strategy W × Database W × Option Signal) → String
  name_after other (ok r) = name_of (r.0)
  name_after other (raise e) = other

  wrapped_name :
      {S : Type 0} (wrap : S → Strategy W) (name : String)
      (m : Result (S × Database W × Option Signal))
      → ((s : S) → name_of (wrap s) ≡ name)
      → name_after name (m >>= λ (t, db, g). ok (wrap t, db, g)) ≡ name
  wrapped_name wrap name (ok r) h = h (r.0)
  wrapped_name wrap name (raise e) h = refl

module _ {W : Type 0} ⦃fl : Float W⦄ where
  evaluate-name :
      (s : Strategy W) (db : Database W) (tick : PriceTick W)
      → name_after (name_of s) (evaluate s db tick) ≡ name_of s
  unfolding evaluate
  evaluate-name (threshold_s s) db tick = refl
  evaluate-name (ema_s s) db tick = wrapped_name ema_s "ema" (evaluate_ema s db tick) (λ t. refl)
  evaluate-name (bollinger_s s) db tick =
      wrapped_name bollinger_s "bollinger" (evaluate_bollinger s db tick) (λ t. refl)
  evaluate-name (trend_pullback_s s) db tick =
      wrapped_name trend_pullback_s "trend_pullback" (evaluate_trend_pullback s db tick) (λ t. refl)

  module _ (cfg : Settings W) (turn : Turn W) (tick : PriceTick W) (s : Strategy W)
      (d : Desk W Callback) where
    -- A turn that raised in `evaluate`, that had no signal, or whose signal ended.
    pub data TurnEnds : Result (Unit {0}) × Strategy W × Desk W Callback → Type 0 where
      crashed : (err : Error) → TurnEnds (raise err, s, d)
      quiet :
          (t : Strategy W) (db : Database W)
          → base_of t ≡ base_of s
          → TurnEnds (ok tt, t, record d { db = db })
      signalled :
          (g : Signal) (t : Strategy W) (db : Database W)
          (r : Result (Unit {0}) × Strategy W × Desk W Callback)
          → evaluate s d.db tick ≡ ok (t, db, some g)
          → Ends cfg turn tick g t (base_of s) (record d { db = db }) r
          → TurnEnds r

    act_on-TurnEnds :
        (r : Result (Strategy W × Database W × Option Signal))
        → evaluate s d.db tick ≡ r
        → d.called ≡ []
        → is_resting tick.pair (name_of s) d ≡ false
        → TurnEnds (act_on cfg turn tick s d r)
    unfolding is_resting
    act_on-TurnEnds (raise e) seen none_yet free = crashed e
    act_on-TurnEnds (ok (t, db, none)) seen none_yet free =
        quiet t db (evaluate-Proposes s d.db tick seen)
    act_on-TurnEnds (ok (t, db, some g)) seen none_yet free =
        let same_name : name_of t ≡ name_of s =
          ap (name_after (name_of s)) (sym seen) ∙ evaluate-name s d.db tick in
        let book : Desk W Callback = record d { db = db } in
        signalled g t db _ seen (
          on_signal-Ends cfg turn tick g t (base_of s) book (evaluate-Proposes s d.db tick seen)
            none_yet (ap (λ n. is_resting tick.pair n book) same_name ∙ free))

    -- A strategy's turn on a tick, from a desk with no call unanswered and no entry of the strategy
    -- in the book: `evaluate` raises and nothing is changed; or there is no signal and the position
    -- and the rollback are as before; or there is one, and the turn ends with the position
    -- confirmed by the trade log, waiting on an entry that rests, or what it was before the tick.
    pub run_strategy-TurnEnds :
        d.called ≡ []
        → is_resting tick.pair (name_of s) d ≡ false
        → TurnEnds (run_strategy cfg turn tick s d)
    unfolding run_strategy
    run_strategy-TurnEnds none_yet free = act_on-TurnEnds (evaluate s d.db tick) refl none_yet free

  -- Test mode never asks the exchange about its entries, and production never takes a tick for the
  -- proof of a fill.
  pub one_way_to_fill :
      (cfg : Settings W) (writes : Writes) (order_status : String → Result (OrderRecord W))
      (tick : PriceTick W) (now : DateTime) (t : Trader W)
      → let live = cfg.active == "production" in
        (live ≡ true → resolve_book cfg writes tick now t ≡ t)
        × (live ≡ false → reconcile_pass cfg writes order_status now t ≡ t)
  unfolding resolve_book reconcile_pass
  one_way_to_fill cfg writes order_status tick now t = (
    λ live. rw live (neither t.desk.has_book _ t),
    λ paper. rw paper (neither t.desk.has_book _ t),
  )
