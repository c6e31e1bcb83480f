-- ===== src/Trader/Signals.antt =====
-- cryptotrader/trader.py: how a signal ends, for the belief of its strategy and for the trade log.
use cryptotrader.Prelude.{
  String, Bool, true, false, ◌≡◌, refl, sym, ap, ◌∙◌, arith, ◌&&◌, ◌==◌, string_eq, if-elim, Option,
  some, [], ◌∷◌, ◌++◌, Result, ok, raise, Error,
}
use cryptotrader.Float.{Float}
use cryptotrader.Models.{PriceTick, Trade, Signal, buy_signal, sell_signal}
use cryptotrader.Database.{Database}
use cryptotrader.Desk.{Desk, acts, Request}
use cryptotrader.Strategy.Belief
use cryptotrader.Strategy.Belief.{Base, Position}
use cryptotrader.Strategy.Rollback.{Proposes}
use cryptotrader.Strategy.{
  Strategy, threshold_s, ema_s, bollinger_s, trend_pullback_s, name_of, base_of, on_order_rejected,
  on_order_filled,
}
use cryptotrader.Maker.{is_resting}
use cryptotrader.Executor.{Settings, side_of}
use cryptotrader.Executor.Sizing.{Still, still}
use cryptotrader.Executor.Endings.{IsOrder, Outcome, declined, stopped, rested, filled, unrecorded}
use cryptotrader.Executor.Outcomes.{execute-Outcome}
use cryptotrader.Trader.{Callback, Turn, answer_calls, done, resolve, order_of, on_signal}

-- Clearing the calls leaves the book.
in_book :
    {W : Type 0} (pair name : String) (e : Desk W Callback)
    → is_resting pair name e ≡ true
    → is_resting pair name (record e { called = [] }) ≡ true
unfolding is_resting
in_book pair name e h = h

module _ {W : Type 0} where
  base-on_order_rejected :
      (s : Strategy W) → base_of (on_order_rejected s) ≡ Belief.on_order_rejected (base_of s)
  unfolding on_order_rejected
  base-on_order_rejected (threshold_s s) = refl
  base-on_order_rejected (ema_s s) = refl
  base-on_order_rejected (bollinger_s s) = refl
  base-on_order_rejected (trend_pullback_s s) = refl

  base-on_order_filled :
      (s : Strategy W) → base_of (on_order_filled s) ≡ Belief.on_order_filled (base_of s)
  unfolding on_order_filled
  base-on_order_filled (threshold_s s) = refl
  base-on_order_filled (ema_s s) = refl
  base-on_order_filled (bollinger_s s) = refl
  base-on_order_filled (trend_pullback_s s) = refl

  -- A refusal of what was proposed gives the position back.
  Proposes-undone :
      (b : Base W) (s : Strategy W) (g : Signal)
      → Proposes b (base_of s) (some g)
      → (base_of (on_order_rejected s)).position ≡ b.position
  Proposes-undone b s buy_signal (h, k, undo) =
      ap (λ (c : Base W). c.position) (base-on_order_rejected s) ∙ undo
  Proposes-undone b s sell_signal (h, k, undo) =
      ap (λ (c : Base W). c.position) (base-on_order_rejected s) ∙ undo

module _ {W : Type 0} ⦃fl : Float W⦄ (cfg : Settings W) (turn : Turn W) (tick : PriceTick W)
    (g : Signal) (s : Strategy W) where
  -- The ways that a signal of `s` ends, from the desk `d` and the position `b` before it.
  pub data Ends (b : Base W) (d : Desk W Callback)
      : Result (Unit {0}) × Strategy W × Desk W Callback → Type 0 where
    -- no order was asked for, nothing traded or rested, and the position is as before
    undone :
        (r : Result (Unit {0})) (t : Strategy W) (e : Desk W Callback)
        → (base_of t).position ≡ b.position
        → Still (cfg.active == "production") d e
        → Ends b d (r, t, e)
    -- an entry rests, and the strategy waits with its proposal
    waits :
        (t : Strategy W) (e : Desk W Callback)
        → t ≡ s
        → is_resting tick.pair (name_of s) e ≡ true
        → e.db.trades ≡ d.db.trades
        → Ends b d (ok tt, t, e)
    -- the trade is in the log, and the proposal is the position for good
    confirmed :
        (t : Strategy W) (e : Desk W Callback) (trade : Trade W)
        → base_of t ≡ Belief.on_order_filled (base_of s)
        → e.db.trades ≡ d.db.trades ++ trade ∷ []
        → trade.side ≡ side_of g
        → Ends b d (ok tt, t, e)
    -- the exchange was asked for the order and may have taken it, the log has no trade of it, the
    -- book has no entry of it, and the position is as before
    adrift :
        (err : Error) (t : Strategy W) (e : Desk W Callback) (q : W) (r : Request W)
        → (base_of t).position ≡ b.position
        → (cfg.active == "production") ≡ true
        → IsOrder cfg turn.answers (order_of tick s g) q r
        → acts e.sent ≡ acts d.sent ++ r ∷ []
        → e.db.trades ≡ d.db.trades
        → e.resting ≡ d.resting
        → Ends b d (raise err, t, e)

  -- The turn of the strategy behind the call of the executor.
  abbrev pub after_execute :
      Result (Option (Trade W)) × Desk W Callback → Result (Unit {0}) × Strategy W × Desk W Callback
  after_execute (r, d') = (
    done r,
    resolve r (d'.has_book && is_resting tick.pair (name_of s) d')
        (answer_calls tick.pair d'.called s),
    record d' { called = [] },
  )

  no_calls :
      (e d : Desk W Callback)
      → e.called ≡ d.called
      → d.called ≡ []
      → answer_calls tick.pair e.called s ≡ s
  no_calls e d same none_yet = ap (λ cs. answer_calls tick.pair cs s) (same ∙ none_yet)

  none_rests :
      (e d : Desk W Callback)
      → e.resting ≡ d.resting
      → is_resting tick.pair (name_of s) d ≡ false
      → (e.has_book && is_resting tick.pair (name_of s) e) ≡ false
  unfolding is_resting
  none_rests e d same free = rw (same, free) (ground arith)

  it_rests :
      (e : Desk W Callback)
      → e.has_book ≡ true
      → is_resting tick.pair (name_of s) e ≡ true
      → (e.has_book && is_resting tick.pair (name_of s) e) ≡ true
  it_rests e book there = ground arith

  Still-settled :
      (live : Bool) (d e : Desk W Callback)
      → d.called ≡ []
      → Still live d e
      → Still live d (record e { called = [] })
  Still-settled live d e none_yet h = record {
    same_acts = h.same_acts;
    unasked = h.unasked;
    same_trades = h.same_trades;
    same_index = h.same_index;
    same_resting = h.same_resting;
    same_called = sym none_yet;
  }

  module _ (b : Base W) (d : Desk W Callback) (p : Proposes b (base_of s) (some g))
      (none_yet : d.called ≡ []) (free : is_resting tick.pair (name_of s) d ≡ false) where
    raised-position :
        (err : Error) (e : Desk W Callback) (flag : Bool)
        → e.called ≡ d.called
        → (base_of (resolve (raise err) flag (answer_calls tick.pair e.called s))).position
          ≡ b.position
    unfolding resolve
    raised-position err e flag same = rw (no_calls e d same none_yet) (Proposes-undone b s g p)

    Outcome-Ends :
        (r : Result (Option (Trade W)) × Desk W Callback)
        → Outcome cfg turn.answers (order_of tick s g) d r
        → Ends b d (after_execute r)
    unfolding resolve
    Outcome-Ends r (declined e h) =
        undone (ok tt) _ _
          (rw (none_rests e d h.same_resting free, no_calls e d h.same_called none_yet)
            (Proposes-undone b s g p))
          (Still-settled _ d e none_yet h)
    Outcome-Ends r (stopped err e h) =
        undone (raise err) _ _ (raised-position err e true h.same_called)
          (Still-settled _ d e none_yet h)
    Outcome-Ends r (rested c q e known fits clear h) =
        waits _ _ (rw (it_rests e h.book h.resting, no_calls e d h.same_called none_yet) refl)
          (in_book tick.pair (name_of s) e h.resting) h.same_trades
    Outcome-Ends r (filled c q t e known fits clear h) =
        confirmed _ _ t
          (rw (none_rests e d h.same_resting free, no_calls e d h.same_called none_yet)
            (base-on_order_filled s))
          h.recorded h.side
    Outcome-Ends r (unrecorded c q req err e known fits clear live own sent log rest same) =
        adrift err _ _ q req (raised-position err e true same) live own sent
          (ap (λ (x : Database W). x.trades) log) rest

    -- From a desk with no call unanswered and no entry of the strategy in the book, a signal ends
    -- in one of four ways. No order was asked for, nothing traded or rested, and the position is what
    -- it was before the proposal; or a maker entry rests, nothing is traded and the proposal stands;
    -- or the trade is the last row of the log and the proposal is final; or, in production, an
    -- exception is raised after the exchange was asked for the order, which it may have taken, with
    -- no trade in the log, no entry in the book and the position taken back.
    pub on_signal-Ends : Ends b d (on_signal cfg turn tick g s d)
    unfolding on_signal
    on_signal-Ends =
        if-elim (Ends b d) turn.feed_healthy _ _
          (λ _. Outcome-Ends _ (execute-Outcome cfg turn.answers (order_of tick s g) d))
          (λ _. undone (ok tt) _ _ (Proposes-undone b s g p) (still _ d))
