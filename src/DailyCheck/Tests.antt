-- ===== src/DailyCheck/Tests.antt =====
-- A quiet day: one buy, an hourly candle, and an exchange that holds what the log and the baseline
-- say.
use cryptotrader.Prelude.{
  ◌⊎◌, ◌≡◌, refl, true, false, some, [], ◌∷◌, All, ok, raise, foldl, ◌&&◌, string_eq, io_error,
}
use cryptotrader.Prelude.Dict.{lookup, get_or}
use cryptotrader.Prelude.Int.{ℤ, pos, ◌+ℤ◌, ◌-ℤ◌, ◌*ℤ◌}
use cryptotrader.Float.{floor_8dp, lit}
use cryptotrader.Float.Cents.{cents_float}
use cryptotrader.Models.{Candle}
use cryptotrader.Models.Time.{not_after}
use cryptotrader.Database.{order_by, insert_by}
use cryptotrader.Holdings.{low_step, open_positions, walk, walk_step, ledger_holdings}
use cryptotrader.Holdings.Low.{no_rows, running_of}
use cryptotrader.Executor.Quote.{kraken_asset, before_slash}
use cryptotrader.Samples.{at, bought, db_of}
use cryptotrader.Reconcile.{
  reconcile, is_ok, assets_of, set_of, sorted, place_before, drift, divergence, expected,
}
use cryptotrader.Reconcile.Movements.{
  manual_adjustment, reward_adjustment, attribute_movements, zeros,
}
use cryptotrader.DailyCheck.{
  none, main, build_report, prod_trades, check_ledger, ledger_step, check_unbacked,
  check_stale_position, check_stop_loss, latest_closes, check_feed, check_maker_fill_rate,
  check_ledger_vs_exchange, adjustment_of, bot_order_txids, is_unbacked, is_past,
}
use cryptotrader.DailyCheck.Report.{
  Inputs, Remote, ExchangeState, failures, check_declined, check_service,
}
use cryptotrader.DailyCheck.Ledger.{IsHeld}
use cryptotrader.DailyCheck.Exit.{exit_zero}

abbrev candle : Candle ℤ
candle = record {
  pair = "BTC/USD";
  timeframe = 60;
  opening = pos 100;
  high = pos 110;
  low = pos 95;
  close = pos 105;
  tick_count = 4;
  timestamp = at 9 0;
}

abbrev inputs : Inputs ℤ
inputs = record {
  db = record (db_of (bought ∷ [])) { candles = candle ∷ [] };
  stops = ("BTC/USD", pos 10) ∷ [];
  baseline = record {
    divergence = ("XXBT", pos 50000000) ∷ [];
    recorded = pos 7;
    ledger_floor = ("BTC/USD", pos 0) ∷ [];
  };
  now = at 10 0;
  since = at 9 0;
  tolerance = pos 5;
}

abbrev state : ExchangeState ℤ
state = record { balances = ("XXBT", pos 350000003) ∷ []; pairs = []; fills = []; ledger = some [] }

abbrev remote : Remote ℤ
remote = record {
  exchange = some state;
  journal = some [];
  active = "active";
  health_is_200 = true;
}

quiet : main (ok (inputs, some remote)) ≡ 0
unfolding main failures build_report prod_trades check_ledger ledger_step check_unbacked
    check_stale_position check_stop_loss latest_closes check_feed check_maker_fill_rate
    check_ledger_vs_exchange adjustment_of bot_order_txids check_declined check_service
    open_positions walk walk_step order_by insert_by floor_8dp reconcile assets_of set_of sorted
    place_before ledger_holdings kraken_asset before_slash manual_adjustment reward_adjustment
    attribute_movements zeros is_ok drift divergence expected ◌+ℤ◌ ◌-ℤ◌ ◌*ℤ◌
quiet = refl

-- An order was declined.
noisy : main (ok (inputs, some (record remote { journal = some ("refusing sell" ∷ []) }))) ≡ 1
unfolding main failures build_report prod_trades check_ledger ledger_step check_unbacked
    check_stale_position check_stop_loss latest_closes check_feed check_maker_fill_rate
    check_ledger_vs_exchange adjustment_of bot_order_txids check_declined check_service
    open_positions walk walk_step order_by insert_by floor_8dp reconcile assets_of set_of sorted
    place_before ledger_holdings kraken_asset before_slash manual_adjustment reward_adjustment
    attribute_movements zeros is_ok drift divergence expected ◌+ℤ◌ ◌-ℤ◌ ◌*ℤ◌
noisy = refl

cannot_run : main {W = ℤ} (raise io_error) ≡ 2
unfolding main
cannot_run = refl

one_row : prod_trades inputs.db ≡ bought ∷ []
unfolding prod_trades order_by insert_by
one_row = refl

exit_zero_example :
    IsHeld inputs.baseline.ledger_floor "BTC/USD"
      (running_of "BTC/USD" (foldl low_step no_rows (bought ∷ [])))
    × All
        (λ s. (is_unbacked s && not_after inputs.since s.timestamp) ≡ false)
        (prod_trades inputs.db)
    × All
        (λ p.
          is_past (get_or p.0 (lit 0) inputs.stops) (lookup p.0 (latest_closes inputs.db)) p.1
          ≡ false)
        (open_positions inputs.db "production")
    × All
        (λ q. is_ok inputs.tolerance q ≡ true)
        (reconcile inputs.db state.balances inputs.baseline.divergence "production"
          (adjustment_of inputs.db state inputs.baseline))
    × ((remote.journal ≡ none) ⊎ (remote.journal ≡ some []))
    × (remote.active ≡ "active")
    × (remote.health_is_200 ≡ true)
exit_zero_example = exit_zero inputs remote state [] [] bought quiet refl refl one_row
