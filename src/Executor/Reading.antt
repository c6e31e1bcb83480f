-- ===== src/Executor/Reading.antt =====
-- cryptotrader/executor.py: an ending from the desk after the balance was read is one of the call.
use cryptotrader.Prelude.{
  ap, ◌∙◌, ◌==◌, string_eq, pair_eq, Option, Result, ◌≡◌, subst, sym, true, [], ◌∷◌, ◌++◌,
}
use cryptotrader.Float.{Float}
use cryptotrader.Models.{Trade, side_eq}
use cryptotrader.Desk.{Request, Desk}
use cryptotrader.Maker.{is_resting}
use cryptotrader.Executor.{Settings, Answers, Order, loss_limit_hit, maker_eligible}
use cryptotrader.Executor.Sizing.{Still, after_reading, acts-after_reading, from_reading}
use cryptotrader.Executor.Endings.{Asked, Outcome, declined, stopped, rested, filled, unrecorded}

module _ {W C : Type 0} ⦃fl : Float W⦄ (cfg : Settings W) (ans : Answers W) (o : Order W C) where
  -- In production an ending after the balance was read is one of the call.
  module _ (d : Desk W C) (live : (cfg.active == "production") ≡ true) where
    Still-after_reading :
        {e : Desk W C}
        → Still (cfg.active == "production") (after_reading d) e
        → Still (cfg.active == "production") d e
    Still-after_reading {e} h =
        subst (λ b. Still b d e) (sym live)
          (from_reading (subst (λ b. Still b (after_reading d) e) live h))

    Asked-after_reading :
        (e : Desk W C) (r : Request W)
        → Asked cfg ans o (after_reading d) e r
        → Asked cfg ans o d e r
    Asked-after_reading e r h =
        (λ l. h.0 l ∙ ap (λ l. l ++ r ∷ []) (acts-after_reading d), λ paper. cc)

    pub Outcome-after_reading :
        {r : Result (Option (Trade W)) × Desk W C}
        → Outcome cfg ans o (after_reading d) r
        → Outcome cfg ans o d r
    unfolding loss_limit_hit maker_eligible is_resting
    Outcome-after_reading (declined e h) = declined e (Still-after_reading h)
    Outcome-after_reading (stopped err e h) = stopped err e (Still-after_reading h)
    Outcome-after_reading (rested c q e known fits clear h) =
        rested c q e known fits clear (record {
          was_eligible = h.was_eligible;
          same_trades = h.same_trades;
          asked = Asked-after_reading e _ h.asked;
          resting = h.resting;
          book = h.book;
          same_called = h.same_called;
        })
    Outcome-after_reading (filled c q t e known fits clear h) =
        filled c q t e known fits clear (record {
          pair = h.pair;
          side = h.side;
          strategy = h.strategy;
          quantity = h.quantity;
          recorded = h.recorded;
          asked = Asked-after_reading e _ h.asked;
          same_resting = h.same_resting;
          same_called = h.same_called;
        })
    Outcome-after_reading (unrecorded c q r err e known fits clear l own sent log rest calls) =
        unrecorded c q r err e known fits clear l own
          (sent ∙ ap (λ l. l ++ r ∷ []) (acts-after_reading d)) log rest calls
