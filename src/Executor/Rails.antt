-- ===== src/Executor/Rails.antt =====
-- The limits that cryptotrader/executor.py keeps: the loss limit of the day, the cap and the balance
-- for a buy, the held quantity for a sell.
use cryptotrader.Prelude.{
  ◌==◌, inl, inr, ap, string_eq, Option, none, some, Result, ◌≡◌, refl, true, false, [], ◌∷◌, ◌++◌,
}
use cryptotrader.Prelude.Dict.{lookup}
use cryptotrader.Float.{Float, ◌*◌, gt, le, lit, neg}
use cryptotrader.Models.{Trade, Side}
use cryptotrader.Statistics.{open_position_quantity, daily_pnl}
use cryptotrader.Float.Laws.{◌≼◌}
use cryptotrader.Strategy.{CurrencyConfig}
use cryptotrader.Desk.{Desk, Request, market_order, post_only, cancel, balance_query, acts}
use cryptotrader.Executor.{Settings, Answers, Order, execute, loss_limit_hit, check_balance}
use cryptotrader.Executor.Sizing.{Still, Allowed, configured, covered, held}
use cryptotrader.Executor.Endings.{IsOrder, Outcome, declined, stopped, rested, filled, unrecorded}
use cryptotrader.Executor.Outcomes.{execute-Outcome}

module _ {W : Type 0} where
  -- The volume of an order; the other calls have none.
  abbrev pub volume : Request W → Option W
  volume (market_order pair side q) = some q
  volume (post_only pair side q price expiry) = some q
  volume (cancel txid) = none
  volume balance_query = none

module _ {W C : Type 0} ⦃fl : Float W⦄ (cfg : Settings W) (ans : Answers W) (o : Order W C) where
  Outcome-Still :
      (d : Desk W C) (r : Result (Option (Trade W)) × Desk W C)
      → loss_limit_hit cfg ans d ≡ true
      → Outcome cfg ans o d r
      → Still (cfg.active == "production") d r.1
  Outcome-Still d r hit (declined e h) = h
  Outcome-Still d r hit (stopped err e h) = h
  Outcome-Still d r hit (rested c q e known fits clear h) = cc
  Outcome-Still d r hit (filled c q t e known fits clear h) = cc
  Outcome-Still d r hit (unrecorded c q req err e known fits clear live own sent log rest calls) =
      cc

  -- Once the realized figure of the day is at or under minus `max_daily_loss_usd`, a call of
  -- `execute` asks the exchange for no order and no cancellation, and outside production for nothing
  -- at all; it records no trade, rests no entry and calls no rollback, for a buy and for a sell. A
  -- buy in production may read the balance.
  pub loss_limit_stops :
      (d : Desk W C)
      → daily_pnl d.db cfg.active ans.today ≼ neg cfg.max_daily_loss_usd
      → Still (cfg.active == "production") d (execute cfg ans o d).1
  unfolding loss_limit_hit
  loss_limit_stops d hit = Outcome-Still d _ hit (execute-Outcome cfg ans o d)

  -- A quantity within the limits of a buy, and of a sell.
  abbrev pub WithinLimits : CurrencyConfig W → Desk W C → Side → W → Type 0
  WithinLimits c d Side.buy q =
      (gt (q * o.price) c.max_order_usd ≡ false) × (check_balance ans o.pair (q * o.price) ≡ none)
  WithinLimits c d Side.sell q =
      (q ≡ open_position_quantity d.db o.pair cfg.active (some o.strategy)) × (le q (lit 0) ≡ false)

  Allowed-WithinLimits :
      (c : CurrencyConfig W) (d : Desk W C) (s : Side) (q : W)
      → (cfg.active == "production") ≡ true
      → o.side ≡ s
      → Allowed cfg ans o c d.db q
      → WithinLimits c d s q
  Allowed-WithinLimits c d s q live e (configured paper) = cc
  Allowed-WithinLimits c d Side.buy q live e (covered _ _ cap balance) = (cap, balance)
  Allowed-WithinLimits c d Side.sell q live e (covered _ buys cap balance) = cc
  Allowed-WithinLimits c d Side.buy q live e (held _ sells positive) = cc
  Allowed-WithinLimits c d Side.sell q live e (held _ sells positive) = (refl, positive)

  -- What a call has asked of the exchange, a reading of the balance apart: nothing, or one order.
  pub data Sends (d e : Desk W C) : Type 0 where
    nothing_sent : acts e.sent ≡ acts d.sent → Sends d e
    one_sent :
        (c : CurrencyConfig W) (q : W) (r : Request W)
        → lookup o.pair cfg.currencies ≡ some c
        → acts e.sent ≡ acts d.sent ++ r ∷ []
        → volume r ≡ some q
        → WithinLimits c d o.side q
        → Sends d e

  IsOrder-volume : (q : W) (r : Request W) → IsOrder cfg ans o q r → volume r ≡ some q
  IsOrder-volume q r (inl e) = ap volume e
  IsOrder-volume q r (inr e) = ap volume e

  Outcome-Sends :
      (d : Desk W C) (r : Result (Option (Trade W)) × Desk W C)
      → (cfg.active == "production") ≡ true
      → Outcome cfg ans o d r
      → Sends d r.1
  Outcome-Sends d r live (declined e h) = nothing_sent h.same_acts
  Outcome-Sends d r live (stopped err e h) = nothing_sent h.same_acts
  Outcome-Sends d r live (rested c q e known fits clear h) =
      one_sent c q _ known (h.asked.0 live) refl (Allowed-WithinLimits c d o.side q live refl fits)
  Outcome-Sends d r live (filled c q t e known fits clear h) =
      one_sent c q _ known (h.asked.0 live) refl (Allowed-WithinLimits c d o.side q live refl fits)
  Outcome-Sends d r live (unrecorded c q req err e known fits clear _ own sent log rest calls) =
      one_sent c q req known sent (IsOrder-volume q req own)
        (Allowed-WithinLimits c d o.side q live refl fits)

  -- In production a call of `execute` asks the exchange for at most one order, and beside it for
  -- the balance at most. That of a buy costs no more than
  -- `max_order_usd` at the order's price, and the balance check passed for it; that of a sell has
  -- exactly the open quantity of the trade log for the pair and the strategy, which is not zero or
  -- less. This holds whether the call returns or raises.
  pub orders_within_limits :
      (d : Desk W C) → (cfg.active == "production") ≡ true → Sends d (execute cfg ans o d).1
  orders_within_limits d live = Outcome-Sends d _ live (execute-Outcome cfg ans o d)
