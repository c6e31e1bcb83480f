-- ===== src/Executor/Paper.antt =====
-- Outside production nothing that cryptotrader/executor.py does reaches the exchange.
use cryptotrader.Prelude.{◌==◌, string_eq, Option, Result, ◌≡◌, false}
use cryptotrader.Float.{Float}
use cryptotrader.Models.{Trade}
use cryptotrader.Desk.{Desk}
use cryptotrader.Executor.{Settings, Answers, Order, execute}
use cryptotrader.Executor.Endings.{Outcome, declined, stopped, rested, filled, unrecorded}
use cryptotrader.Executor.Outcomes.{execute-Outcome}

module _ {W C : Type 0} ⦃fl : Float W⦄ (cfg : Settings W) (ans : Answers W) (o : Order W C) where
  Outcome-sent :
      (d : Desk W C) (r : Result (Option (Trade W)) × Desk W C)
      → (cfg.active == "production") ≡ false
      → Outcome cfg ans o d r
      → r.1.sent ≡ d.sent
  Outcome-sent d r paper (declined e h) = h.unasked paper
  Outcome-sent d r paper (stopped err e h) = h.unasked paper
  Outcome-sent d r paper (rested c q e known fits clear h) = h.asked.1 paper
  Outcome-sent d r paper (filled c q t e known fits clear h) = h.asked.1 paper
  Outcome-sent d r paper (unrecorded c q req err e known fits clear live own sent log rest calls) =
      cc

  -- In every mode but production a call of `execute` makes no call of the exchange client, for an
  -- order or for the balance, whatever the order, the settings and the state of the desk, and whether
  -- it returns or raises.
  pub paper_sends_nothing :
      (d : Desk W C) → (cfg.active == "production") ≡ false → (execute cfg ans o d).1.sent ≡ d.sent
  paper_sends_nothing d paper = Outcome-sent d _ paper (execute-Outcome cfg ans o d)
