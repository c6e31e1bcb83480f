-- ===== src/Trader/Tests.antt =====
-- Runs of cryptotrader/trader.py, and the theorems about it at concrete inputs.
use cryptotrader.Prelude.{◌≡◌, refl, true, false, some, [], string_eq, pair_eq}
use cryptotrader.Prelude.Int.{ℤ}
use cryptotrader.Float.Cents.{cents_float}
use cryptotrader.Models.{PriceTick, buy_signal}
use cryptotrader.Strategy.Belief.{arm_rollback, set_back, on_order_rejected as take_back}
use cryptotrader.Strategy.Rollback.{Proposes}
use cryptotrader.Strategy.Threshold.{flag_only, set_flag, new_threshold}
use cryptotrader.Strategy.{Strategy, threshold_s, base_of, name_of}
use cryptotrader.Maker.{is_resting}
use cryptotrader.Trader.{on_signal, run_strategy}
use cryptotrader.Trader.Signals.{Ends, on_signal-Ends}
use cryptotrader.Trader.Loop.{TurnEnds, run_strategy-TurnEnds}
use cryptotrader.Samples.{at, tick_at, db_of, settings, desk, fresh, turn, pair_config}

abbrev low_tick : PriceTick ℤ
low_tick = tick_at (at 9 5) 100

abbrev long : Strategy ℤ
long = threshold_s (record (new_threshold pair_config.threshold) {
  base = set_flag (arm_rollback flag_only (base_of fresh)) true;
})

long-Proposes : Proposes (base_of fresh) (base_of long) (some buy_signal)
unfolding new_threshold arm_rollback set_back take_back
long-Proposes = (refl, refl, refl)

nothing_rests : is_resting "BTC/USD" (name_of fresh) (desk (db_of [])) ≡ false
unfolding is_resting
nothing_rests = refl

on_signal-Ends_example :
    Ends
      (settings "test" true)
      turn
      low_tick
      buy_signal
      long
      (base_of fresh)
      (desk (db_of []))
      (on_signal (settings "test" true) turn low_tick buy_signal long (desk (db_of [])))
unfolding new_threshold
on_signal-Ends_example =
    on_signal-Ends (settings "test" true) turn low_tick buy_signal long (base_of fresh)
      (desk (db_of [])) long-Proposes refl nothing_rests

run_strategy-TurnEnds_example :
    TurnEnds
      (settings "test" true)
      turn
      low_tick
      fresh
      (desk (db_of []))
      (run_strategy (settings "test" true) turn low_tick fresh (desk (db_of [])))
unfolding new_threshold
run_strategy-TurnEnds_example =
    run_strategy-TurnEnds (settings "test" true) turn low_tick fresh (desk (db_of [])) refl
      nothing_rests
