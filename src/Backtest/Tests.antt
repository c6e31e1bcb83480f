-- ===== src/Backtest/Tests.antt =====
-- A breakout over four hours that falls back to its stop, in whole units.
use cryptotrader.Prelude.{◌≡◌, refl, true, false, none, some, List, [], ◌∷◌, map, ok, All}
use cryptotrader.Prelude.Dict.{keys}
use cryptotrader.Database.{Database, order_by, insert_by}
use cryptotrader.Reconcile.{sorted, place_before, text_before}
use cryptotrader.Backtest.Validate.{
  Constants, validate, validate_pairs, validate_pair, compare_pair, extra_step, is_expected,
  match_step, first_hit, real_trades, load_candles, warm,
}
use cryptotrader.Backtest.Reproduced.{HasReplay, validate_zero}
use cryptotrader.Prelude.Int.{ℤ, pos, pos_part, ◌+ℤ◌, ◌-ℤ◌, ◌*ℤ◌}
use cryptotrader.Float.{div, div_int}
use cryptotrader.Float.Cents.{cents_float}
use cryptotrader.Models.{Side, Candle}
use cryptotrader.Models.Time.{DateTime}
use cryptotrader.Samples.{at, row, db_of}
use cryptotrader.Indicators.{bollinger_bands}
use cryptotrader.Backtest.Data.{Params, BtTrade, Outcome, Setting}
use cryptotrader.Backtest.Rules.{entry_ok, exit_reason, trend_up_at, verdict_at, clears_fees}
use cryptotrader.Backtest.Loop.{
  run, replay, trade_hour, flat_hour, hold_hour, close_position, open_position, new_replay,
}
use cryptotrader.Backtest.Books.{IsCoherent}
use cryptotrader.Backtest.Coherent.{run-IsCoherent}

abbrev rules : Params ℤ
rules = record {
  period = 2;
  std_dev = pos 1;
  min_bw_pct = pos 0;
  stop_loss_pct = pos 10;
  trend_filter = false;
  trend_period = 2;
  fee_pct = pos 1;
  legacy_flat_gate_usd = none;
  exit_mode = "mid_band";
  trailing_pct = pos 5;
  entry_mode = "bw_floor";
  squeeze_lookback = 120;
  squeeze_pctile = pos 40;
  fee_gate = true;
  cooldown_hours = 0;
}

abbrev setting : Setting ℤ
setting = record { params = rules; budget_usd = pos 0; fixed_qty = pos 2; trade_from = none }

abbrev hours : List (DateTime × ℤ)
hours = (at 1 0, pos 100) ∷ (at 2 0, pos 100) ∷ (at 3 0, pos 103) ∷ (at 4 0, pos 101) ∷ []

abbrev bought_at : BtTrade ℤ
bought_at = record {
  ts = at 3 0;
  side = Side.buy;
  price = pos 103;
  quantity = pos 2;
  reason = "breakout";
}

abbrev sold_at : BtTrade ℤ
sold_at = record {
  ts = at 4 0;
  side = Side.sell;
  price = pos 101;
  quantity = pos 2;
  reason = "stop_loss";
}

abbrev outcome : Outcome ℤ
outcome = record {
  replay = record {
    trades = bought_at ∷ sold_at ∷ [];
    round_trips = 1;
    wins = 0;
    gross = pos 0 -ℤ pos 4;
    fees = pos 4;
    max_dd = pos 8;
    hours_in_market = 1;
    hours_total = 2;
    in_pos = false;
    entry = none;
    qty = pos 0;
    peak = pos 0;
    last_exit_ts = some (at 4 0);
    bw_hist = pos 2 ∷ pos 2 ∷ [];
    equity = pos 0 -ℤ pos 8;
    equity_peak = pos 0;
  };
  net = pos 0 -ℤ pos 8;
  buy_hold = pos 2;
}

stops_out : run pos_part setting hours [] ≡ ok outcome
unfolding run replay trade_hour flat_hour hold_hour close_position open_position new_replay entry_ok
    exit_reason trend_up_at verdict_at clears_fees bollinger_bands div div_int ◌+ℤ◌ ◌-ℤ◌ ◌*ℤ◌
stops_out = refl

run-IsCoherent_example : IsCoherent outcome.replay
run-IsCoherent_example = run-IsCoherent pos_part setting hours [] outcome stops_out

-- The same hours in the database, with the buy as production took it, and a sell that it did not.
abbrev candle_of : DateTime × ℤ → Candle ℤ
candle_of (ts, close) = record {
  pair = "BTC/USD";
  timeframe = 60;
  opening = close;
  high = close;
  low = close;
  close = close;
  tick_count = 1;
  timestamp = ts;
}

abbrev traded : Database ℤ
traded =
    record (db_of
      (record (row Side.buy (at 4 0) 103 2 "production") { strategy = "bollinger" } ∷ [])) {
        candles = map candle_of hours;
      }

abbrev constants : Constants ℤ
constants = record {
  pair_sizing = ("BTC/USD", (pos 0, pos 2)) ∷ [];
  traded_under = rules;
  validate_from = at 3 0;
  expected_extra = (("BTC/USD", (Side.sell, at 4 0)), "declined") ∷ [];
}

is_validated : validate pos_part constants traded ≡ ok 0
unfolding validate validate_pairs validate_pair compare_pair extra_step is_expected match_step
    first_hit real_trades load_candles sorted place_before order_by insert_by run replay trade_hour
    flat_hour hold_hour close_position open_position new_replay entry_ok exit_reason trend_up_at
    verdict_at clears_fees bollinger_bands div div_int ◌+ℤ◌ ◌-ℤ◌ ◌*ℤ◌
is_validated = refl

misses_sell : validate pos_part (record constants { expected_extra = [] }) traded ≡ ok 1
unfolding validate validate_pairs validate_pair compare_pair extra_step is_expected match_step
    first_hit real_trades load_candles sorted place_before order_by insert_by run replay trade_hour
    flat_hour hold_hour close_position open_position new_replay entry_ok exit_reason trend_up_at
    verdict_at clears_fees bollinger_bands div div_int ◌+ℤ◌ ◌-ℤ◌ ◌*ℤ◌
misses_sell = refl

validate_zero_example :
    All
      (λ pair.
        HasReplay pos_part constants traded pair (warm constants (load_candles traded pair 60)))
      (sorted text_before (keys constants.pair_sizing))
validate_zero_example = validate_zero pos_part constants traded is_validated
