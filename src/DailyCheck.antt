-- ===== src/DailyCheck.antt =====
-- scripts/daily_check.py: the checks on production, the report and the exit code. The detail texts
-- are not modelled. What the host answers over SSH, and the state of the exchange, are arguments.
pub mod Report
pub mod Ledger
pub mod Exit
mod Tests
use Prim.Native.Nat.{◌+◌, ◌*◌}
use text.Mathlib.Text.{find?}
use cryptotrader.DailyCheck.Report.{
  warn, info, error, Severity, Check, is_error, is_warn, failures, warnings, is_empty, LedgerWalk,
  Baseline, ExchangeState, Inputs, Remote, exchange_check, check_declined, check_service, txids_of,
}
use cryptotrader.Prelude.{
  ℕ, String, Bool, true, false, not, ltb, ◌&&◌, ◌||◌, ◌==◌, string_eq, nat_eq, if◌then◌else◌,
  Option, none, some, List, [], ◌∷◌, ◌++◌, foldl, filter, map, is_some, Result, ok, raise,
}
use cryptotrader.Prelude.Dict.{Dict, lookup, get_or, insert, keys}
use cryptotrader.Float.{Float, ◌+◌ as plus, ◌-◌, ◌*◌ as times, lit, lt, le}
use cryptotrader.Models.{Trade, Side, side_eq, Candle}
use cryptotrader.Models.Time.{DateTime, instant, not_after}
use cryptotrader.Database.{Database}
use cryptotrader.Holdings.{OpenPosition, ordered_rows, change, open_positions}
use cryptotrader.Executor.Quote.{kraken_asset}
use cryptotrader.Reconcile.{
  AssetReconciliation, Fill, LedgerEntry, member, set_of, sorted, text_before, reconcile, is_ok,
}
use cryptotrader.Reconcile.Movements.{attribute_movements, manual_adjustment, reward_adjustment}

module _ {W : Type 0} ⦃fl : Float W⦄ where
  -- QTY_EPSILON
  abbrev pub qty_epsilon : W
  qty_epsilon = fl.quot (lit 1) (lit 1_000_000_000)

  unfoldable pub prod_trades : Database W → List (Trade W)
  prod_trades db = ordered_rows db "production"

  unfoldable pub ledger_step : Dict String W → LedgerWalk W → Trade W → LedgerWalk W
  ledger_step floor s t =
      let now = plus (get_or t.pair (lit 0) s.running) (change t) in
      let limit = get_or t.pair (lit 0) floor - qty_epsilon in
      record {
        running = insert t.pair now s.running;
        breaches =
            if lt now limit && not (member t.pair s.breaches)
            then s.breaches ++ t.pair ∷ []
            else s.breaches;
      }

  unfoldable pub check_ledger : List (Trade W) → Dict String W → Check
  check_ledger trades floor = record {
    name = "ledger_non_negative";
    passed =
        is_empty
          (foldl (ledger_step floor) (record { running = []; breaches = [] }) trades).breaches;
    severity = error;
  }

  abbrev pub is_unbacked : Trade W → Bool
  is_unbacked t = t.side == Side.sell && not (is_some t.pnl)

  unfoldable pub check_unbacked : List (Trade W) → DateTime → Check
  check_unbacked trades since = record {
    name = "no_unbacked_sells";
    passed = is_empty (filter (λ t. is_unbacked t && not_after since t.timestamp) trades);
    severity = error;
  }

  -- STALE_POSITION_DAYS, in microseconds.
  abbrev pub is_old : DateTime → OpenPosition W → Bool
  is_old now p = ltb (instant p.opened_at + 21 * 86_400 * 1_000_000) (instant now)

  unfoldable pub check_stale_position : Database W → DateTime → Check
  check_stale_position db now =
      let fresh = is_empty (filter (λ p. is_old now p.1) (open_positions db "production")) in
      record {
        name = "no_stale_position";
        passed = fresh;
        severity = if fresh then error else warn;
      }

  abbrev pub hourly : Database W → List (Candle W)
  hourly db = filter (λ c. c.timeframe == 60) db.candles

  -- The closes at the last hourly timestamp of each pair.
  unfoldable pub latest_closes : Database W → Dict String W
  latest_closes db =
      let newest = λ (c : Candle W).
        is_empty
          (filter (λ o. o.pair == c.pair && not (not_after o.timestamp c.timestamp)) (hourly db)) in
      foldl (λ d c. insert c.pair c.close d) [] (filter newest (hourly db))

  abbrev pub is_past : W → Option W → OpenPosition W → Bool
  is_past stop none p = false
  is_past stop (some price) p =
      not (fl.eq stop (lit 0)) && le price (times p.entry_price (lit 1 - fl.quot stop (lit 100)))

  unfoldable pub check_stop_loss : Database W → Dict String W → Check
  unfolding latest_closes
  check_stop_loss db stops = record {
    name = "stop_loss_honoured";
    passed = is_empty (
        filter (λ p. is_past (get_or p.0 (lit 0) stops) (lookup p.0 (latest_closes db)) p.1)
          (open_positions db "production"));
    severity = error;
  }

  -- FEED_STALE_HOURS, in microseconds: fresh where some hourly candle is not older.
  unfoldable pub check_feed : Database W → DateTime → Check
  check_feed db now = record {
    name = "feed_fresh";
    passed = not (
        is_empty (
          filter (λ c. not (ltb (instant c.timestamp + 3 * 3600 * 1_000_000) (instant now)))
            (hourly db)));
    severity = error;
  }

  -- Informational on every path.
  unfoldable pub check_maker_fill_rate : Database W → DateTime → Check
  check_maker_fill_rate db since = record {
    name = "maker_fill_rate";
    passed = true;
    severity = info;
  }

  -- `{r[0] for r in ...}` over the order ids of production.
  unfoldable pub bot_order_txids : Database W → List String
  bot_order_txids db = txids_of (filter (λ t. t.mode == "production") db.trades)

  -- The assets of the floor's pairs, or else those of the balances.
  abbrev pub watched : Dict String W → Dict String W → List String
  watched floor balances =
      let of_floor = set_of (map kraken_asset (keys floor)) in
      sorted text_before (if is_empty of_floor then keys balances else of_floor)

  abbrev pub add_rewards :
      Option (Dict String (LedgerEntry W)) → W → List String → Dict String W → Dict String W
  add_rewards none since watch adjustment = adjustment
  add_rewards (some entries) since watch adjustment =
      foldl (λ d r. insert r.0 (plus (get_or r.0 (lit 0) d) r.1) d) adjustment
        (reward_adjustment entries since watch)

  -- The manual trades and the rewards since the baseline, where there is one.
  unfoldable pub adjustment_of : Database W → ExchangeState W → Baseline W → Dict String W
  unfolding bot_order_txids
  adjustment_of db state baseline =
      if is_empty baseline.divergence
      then []
      else (let watch = watched baseline.ledger_floor state.balances in
          let movements = attribute_movements state.fills state.pairs (bot_order_txids db) watch in
          add_rewards state.ledger baseline.recorded watch
            (manual_adjustment movements baseline.recorded watch))

  abbrev pub judge : W → Bool → List (AssetReconciliation W) → Check
  judge tolerance has_baseline [] = exchange_check true info
  judge tolerance has_baseline (r ∷ rest) =
      if not has_baseline
      then exchange_check false warn
      else exchange_check (is_empty (filter (λ q. not (is_ok tolerance q)) (r ∷ rest))) error

  abbrev pub compare_state : Inputs W → Option (ExchangeState W) → Check
  compare_state i none = exchange_check false warn
  compare_state i (some state) = judge i.tolerance (not (is_empty i.baseline.divergence)) (
      reconcile i.db state.balances i.baseline.divergence "production"
        (adjustment_of i.db state i.baseline))

  unfoldable pub check_ledger_vs_exchange : Inputs W → Option (ExchangeState W) → Check
  check_ledger_vs_exchange i state = compare_state i state

  abbrev pub remote_checks : Inputs W → Option (Remote W) → List Check
  remote_checks i none = []
  remote_checks i (some r) =
      check_ledger_vs_exchange i r.exchange
      ∷ check_declined r.journal
      ∷ check_service r.active r.health_is_200
      ∷ []

  -- The remote part is there exactly if the run is not on a local file.
  unfoldable pub build_report : Inputs W → Option (Remote W) → List Check
  build_report i remote =
      check_ledger (prod_trades i.db) i.baseline.ledger_floor
      ∷ check_unbacked (prod_trades i.db) i.since
      ∷ check_stale_position i.db i.now
      ∷ check_stop_loss i.db i.stops
      ∷ check_feed i.db i.now
      ∷ check_maker_fill_rate i.db i.since
      ∷ remote_checks i remote

  -- What came before the report may raise: the snapshot, the settings, a check.
  unfoldable pub main : Result (Inputs W × Option (Remote W)) → ℕ
  main (raise e) = 2
  main (ok (i, remote)) = if is_empty (failures (build_report i remote)) then 0 else 1
