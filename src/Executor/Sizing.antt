-- ===== src/Executor/Sizing.antt =====
-- cryptotrader/executor.py: what sizing an order and refusing it leave as they are.
use cryptotrader.Prelude.{
  ◌==◌, string_eq, Option, none, some, Result, ok, raise, ◌≡◌, refl, arith, true, false, Bool,
  if◌then◌else◌, filter-append, ◌∙◌, ◌++◌, [], ◌∷◌,
}
use cryptotrader.Database.{insert_rejected_order, Database}
use cryptotrader.Float.{Float, ◌*◌, lit, gt, le}
use cryptotrader.Models.{RejectReason, Side, max_order_exceeded, no_open_position}
use cryptotrader.Statistics.{open_position_quantity}
use cryptotrader.Strategy.{CurrencyConfig}
use mathlib.Core.List.{append-nil}
use cryptotrader.Desk.{Action, Desk, pure, fail, ◌>>◌, balance_query, is_act, acts}
use cryptotrader.Maker.{try_insert_rejected}
use cryptotrader.Executor.{
  runtime_error, Settings, Answers, Order, ask, reject, refuse_if, check_balance, size_buy,
  size_sell, size_order, buy_quantity, for_side,
}

-- Nothing is ordered, cancelled, traded or rested between the two desks: the exchange is asked for
-- the balance at most, and in production alone.
pub record Still {W C : Type 0} (live : Bool) (d e : Desk W C) : Type 0 where
  pub same_acts : acts e.sent ≡ acts d.sent
  pub unasked : live ≡ false → e.sent ≡ d.sent
  pub same_trades : e.db.trades ≡ d.db.trades
  pub same_index : e.db.unique_trades ≡ d.db.unique_trades
  pub same_resting : e.resting ≡ d.resting
  pub same_called : e.called ≡ d.called

module _ {W C : Type 0} where
  pub still : (live : Bool) (d : Desk W C) → Still live d d
  still live d = record {
    same_acts = refl;
    unasked = λ _. refl;
    same_trades = refl;
    same_index = refl;
    same_resting = refl;
    same_called = refl;
  }

  -- The desk once the balance is read.
  abbrev pub after_reading : Desk W C → Desk W C
  after_reading d = record d { sent = d.sent ++ balance_query ∷ [] }

  pub acts-after_reading : (d : Desk W C) → acts (after_reading d).sent ≡ acts d.sent
  acts-after_reading d = filter-append is_act d.sent (balance_query ∷ []) ∙ append-nil (acts d.sent)

  pub from_reading : {d e : Desk W C} → Still true (after_reading d) e → Still true d e
  from_reading {d} h = record {
    same_acts = h.same_acts ∙ acts-after_reading d;
    unasked = λ paper. cc;
    same_trades = h.same_trades;
    same_index = h.same_index;
    same_resting = h.same_resting;
    same_called = h.same_called;
  }

module _ {W C : Type 0} ⦃fl : Float W⦄ (cfg : Settings W) (ans : Answers W) (o : Order W C) where
  pub reject-Still :
      (q : W) (why : RejectReason) (d : Desk W C)
      → (live : Bool) → Still live d (reject cfg ans o q why d).1
  unfolding reject try_insert_rejected insert_rejected_order
  reject-Still q why d live = record {
    same_acts = refl;
    unasked = λ _. refl;
    same_trades = ground arith;
    same_index = ground arith;
    same_resting = refl;
    same_called = refl;
  }

  -- The quantities that sizing lets through: the configured lot outside production; for a buy in
  -- production one within the cap that the balance covers; for a sell there what is held.
  pub data Allowed (c : CurrencyConfig W) (db : Database W) : W → Type 0 where
    configured : (cfg.active == "production") ≡ false → Allowed c db c.quantity
    covered :
        (cfg.active == "production") ≡ true
        → o.side ≡ Side.buy
        → gt (buy_quantity c o.price * o.price) c.max_order_usd ≡ false
        → check_balance ans o.pair (buy_quantity c o.price * o.price) ≡ none
        → Allowed c db (buy_quantity c o.price)
    held :
        (cfg.active == "production") ≡ true
        → o.side ≡ Side.sell
        → le (open_position_quantity db o.pair cfg.active (some o.strategy)) (lit 0) ≡ false
        → Allowed c db (open_position_quantity db o.pair cfg.active (some o.strategy))

  -- What sizing gives: the quantity, with the balance read or nothing touched, or an order that is
  -- refused.
  pub data Sized (c : CurrencyConfig W) (d : Desk W C) : Result (Option W) × Desk W C → Type 0 where
    sized : (q : W) → Allowed c d.db q → Sized c d (ok (some q), d)
    sized_read :
        (q : W)
        → (cfg.active == "production") ≡ true
        → Allowed c d.db q
        → Sized c d (ok (some q), after_reading d)
    refused : (e : Desk W C) → Still (cfg.active == "production") d e → Sized c d (ok none, e)
    capped :
        (e : Desk W C) → Still (cfg.active == "production") d e → Sized c d (raise runtime_error, e)

  Sized-if :
      (b : Bool) (x y : Action W C (Option W)) {c : CurrencyConfig W} {d : Desk W C}
      → (b ≡ true → Sized c d (x d))
      → (b ≡ false → Sized c d (y d))
      → Sized c d ((if b then x else y) d)
  Sized-if true x y h k = h refl
  Sized-if false x y h k = k refl

  refuse_if-Sized :
      (c : CurrencyConfig W) (q : W) (why : Option RejectReason) (d : Desk W C)
      → (cfg.active == "production") ≡ true
      → (why ≡ none → Allowed c d.db q)
      → Sized c d (refuse_if cfg ans o q why (after_reading d))
  unfolding reject
  refuse_if-Sized c q none d live h = sized_read q live (h refl)
  refuse_if-Sized c q (some why) d live h =
      refused _ (rw live (from_reading (reject-Still q why (after_reading d) true)))

  size_buy-Sized :
      (c : CurrencyConfig W) (d : Desk W C)
      → (cfg.active == "production") ≡ true
      → o.side ≡ Side.buy
      → Sized c d (size_buy cfg ans o c d)
  unfolding size_buy reject
  size_buy-Sized c d live buys =
      let q = buy_quantity c o.price in
      Sized-if (gt (q * o.price) c.max_order_usd)
        (reject cfg ans o q max_order_exceeded >> fail runtime_error)
        (ask balance_query >> refuse_if cfg ans o q (check_balance ans o.pair (q * o.price)))
        (λ _. capped _ (reject-Still q max_order_exceeded d (cfg.active == "production")))
        (λ within.
          refuse_if-Sized c q (check_balance ans o.pair (q * o.price)) d live
            (covered live buys within))

  size_sell-Sized :
      (c : CurrencyConfig W) (d : Desk W C)
      → (cfg.active == "production") ≡ true
      → o.side ≡ Side.sell
      → Sized c d (size_sell cfg ans o d)
  unfolding size_sell reject
  size_sell-Sized c d live sells =
      let q = open_position_quantity d.db o.pair cfg.active (some o.strategy) in
      Sized-if (le q (lit 0)) (reject cfg ans o (lit 0) no_open_position >> pure none)
        (pure (some q))
        (λ _. refused _ (reject-Still (lit 0) no_open_position d (cfg.active == "production")))
        (λ some_held. sized q (held live sells some_held))

  by_side-Sized :
      (c : CurrencyConfig W) (d : Desk W C) (s : Side)
      → (cfg.active == "production") ≡ true
      → o.side ≡ s
      → Sized c d (for_side s (size_buy cfg ans o c) (size_sell cfg ans o) d)
  by_side-Sized c d Side.buy live e = size_buy-Sized c d live e
  by_side-Sized c d Side.sell live e = size_sell-Sized c d live e

  pub size_order-Sized :
      (c : CurrencyConfig W) (d : Desk W C) → Sized c d (size_order cfg ans o c d)
  unfolding size_order
  size_order-Sized c d =
      Sized-if (cfg.active == "production")
        (for_side o.side (size_buy cfg ans o c) (size_sell cfg ans o)) (pure (some c.quantity))
        (λ live. by_side-Sized c d o.side live refl) (λ paper. sized c.quantity (configured paper))
