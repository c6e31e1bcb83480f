-- ===== src/Strategy/Tests.antt =====
-- Runs of cryptotrader/strategy, and the theorems about it at concrete inputs.
use cryptotrader.Prelude.{
  String, ℕ, ◌≡◌, ◌≢◌, refl, arith, true, false, some, none, ok, [], ◌∷◌, string_eq,
}
use cryptotrader.Prelude.Int.{ℤ, pos}
use cryptotrader.Float.Cents.{cents_float}
use cryptotrader.Models.{buy_signal, PriceTick}
use cryptotrader.Database.{Database, insert_trade, has_key, empty_database}
use cryptotrader.Strategy.Belief.{Base, Position, arm_rollback}
use cryptotrader.Strategy.Rollback.{Proposes}
use cryptotrader.Strategy.Threshold.{flag_only, set_flag, new_threshold, evaluate_threshold}
use cryptotrader.Strategy.Contract.{evaluate-Proposes}
use cryptotrader.Strategy.{Strategy, threshold_s, evaluate, base_of}
use cryptotrader.Samples.{at, tick_at, bought, sold, db_of, fresh, pair_config}

abbrev long_base : Base ℤ
long_base = record {
  position = record { in_position = true; entry_price = some (pos 100) };
  pending = none;
}

abbrev out : Position ℤ
out = record { in_position = false; entry_price = none }

-- The price is under the trigger of 110.
abbrev low_tick : PriceTick ℤ
low_tick = tick_at (at 9 5) 100

abbrev long : Strategy ℤ
long = threshold_s (record (new_threshold pair_config.threshold) {
  base = set_flag (arm_rollback flag_only (base_of fresh)) true;
})

buys : evaluate fresh empty_database low_tick ≡ ok (long, empty_database, some buy_signal)
unfolding evaluate evaluate_threshold new_threshold
buys = refl

evaluate-Proposes_example : Proposes (base_of fresh) (base_of long) (some buy_signal)
evaluate-Proposes_example = evaluate-Proposes fresh empty_database low_tick buys

abbrev after_sale : ℕ × Database ℤ
after_sale = (2, db_of (bought ∷ sold ∷ []))

sells : insert_trade (db_of (bought ∷ [])) sold ≡ ok after_sale
unfolding insert_trade has_key
sells = refl

first_buy : insert_trade (db_of []) bought ≡ ok (1, db_of (bought ∷ []))
unfolding insert_trade has_key
first_buy = refl

test_ne_empty : ◌≢◌ {A = String} "test" ""
test_ne_empty = ground (arith, string_eq.beq_iff "test" "")

live_ne_test : ◌≢◌ {A = String} "production" "test"
live_ne_test = ground (arith, string_eq.beq_iff "production" "test")
