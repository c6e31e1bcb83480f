-- ===== src/WriteBaseline/Tests.antt =====
-- A log that sold more than it had bought, and an exchange that holds some of the asset, in whole
-- units.
use cryptotrader.Prelude.{◌≡◌, refl, true, false, none, some, [], ◌∷◌, arith, string_eq}
use cryptotrader.Prelude.Int.{ℤ, pos, ◌+ℤ◌, ◌-ℤ◌, ◌*ℤ◌}
use cryptotrader.Float.{lit, ◌+◌, ◌-◌, le, abs}
use cryptotrader.Float.Laws.{◌≼◌}
use cryptotrader.Float.Cents.{cents_float, Cents-IsOrdered}
use cryptotrader.Samples.{at, sold, db_of}
use cryptotrader.Database.{Database, order_by, insert_by}
use cryptotrader.Holdings.{ledger_holdings, ledger_low_water_by_pair, low_step}
use cryptotrader.Executor.Quote.{kraken_asset, before_slash}
use cryptotrader.Reconcile.{reconcile, assets_of, set_of, sorted, place_before, divergence}
use cryptotrader.DailyCheck.{qty_epsilon, prod_trades, check_ledger, check_ledger_vs_exchange}
use cryptotrader.DailyCheck.Report.{Inputs, ExchangeState}
use cryptotrader.WriteBaseline.{Saved, divergences, rounded, save_baseline, write_baseline}
use cryptotrader.WriteBaseline.Checks.{write_baseline_settles}

abbrev oversold : Database ℤ
oversold = db_of (sold ∷ [])

abbrev state : ExchangeState ℤ
state = record {
  balances = ("XXBT", pos 250000000) ∷ ("ZUSD", pos 80) ∷ [];
  pairs = [];
  fills =
      (
        "F1",
        record {
          time = some (pos 6);
          pair = some "XXBTZUSD";
          kind = some "buy";
          vol = some (pos 3);
          cost = some (pos 9);
          fee = some (pos 1);
          ordertxid = some "O1";
        },
      )
      ∷ [];
  ledger = some [];
}

abbrev written : Saved ℤ
written = record {
  baseline = record {
    divergence = ("XXBT", pos 350000000) ∷ [];
    recorded = pos 7;
    ledger_floor = ("BTC/USD", pos 0 -ℤ pos 100000000) ∷ [];
  };
  attribution = ("XXBT", "bought by hand") ∷ [];
}

abbrev inputs : Inputs ℤ
inputs = record {
  db = oversold;
  stops = [];
  baseline = written.baseline;
  now = at 10 0;
  since = at 9 0;
  tolerance = pos 5;
}

writes :
    write_baseline (λ x. x) false written.attribution (pos 7) oversold state.balances
    ≡ (0, some written)
unfolding write_baseline save_baseline divergences rounded reconcile assets_of set_of sorted
    place_before divergence ledger_holdings ledger_low_water_by_pair low_step kraken_asset
    before_slash order_by insert_by ◌+ℤ◌ ◌-ℤ◌ ◌*ℤ◌
writes = refl

-- The asset has no explanation.
refuses : write_baseline (λ x. x) false [] (pos 7) oversold state.balances ≡ (1, none)
unfolding write_baseline save_baseline divergences rounded reconcile assets_of set_of sorted
    place_before divergence ledger_holdings ledger_low_water_by_pair low_step kraken_asset
    before_slash order_by insert_by ◌+ℤ◌ ◌-ℤ◌ ◌*ℤ◌
refuses = refl

under_floor : (x : ℤ) → x - qty_epsilon ≼ x
unfolding ◌-ℤ◌ ◌*ℤ◌
under_floor x = ground arith

close_by : (x : ℤ) → le (abs (x - (x + lit 0))) (pos 5) ≡ true
unfolding ◌+ℤ◌ ◌-ℤ◌
close_by x = ground arith

zero_add : ◌≡◌ {A = ℤ} (lit 0 + lit 0) (lit 0)
unfolding ◌+ℤ◌
zero_add = refl

write_baseline_settles_example :
    ((check_ledger (prod_trades inputs.db) inputs.baseline.ledger_floor).passed ≡ true)
    × ((check_ledger_vs_exchange inputs (some state)).passed ≡ true)
write_baseline_settles_example =
    write_baseline_settles Cents-IsOrdered (λ x. x) false written.attribution (pos 7) inputs state
      written refl under_floor close_by zero_add writes refl ((refl, tt), tt)
