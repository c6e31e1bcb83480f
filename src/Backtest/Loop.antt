-- ===== src/Backtest/Loop.antt =====
-- scripts/backtest.py: `run`, the replay of candles through a variant.
use Prim.Native.Nat.{◌+◌ as plus, ◌*◌ as times}
use cryptotrader.Prelude.{
  ℕ, suc, String, Bool, true, false, not, ltb, nat_beq, ◌&&◌, string_eq, if◌then◌else◌, Option,
  none, some, List, [], ◌∷◌, ◌++◌, map, filter, last?, Result, ok, index_error, or_raise, ◌>>=◌,
}
use cryptotrader.Float.{Float, ◌+◌, ◌-◌, ◌*◌, lit, gt, max, div}
use cryptotrader.Models.{Side}
use cryptotrader.Models.Time.{DateTime, instant, not_after}
use cryptotrader.Indicators.{bollinger_bands}
use cryptotrader.Backtest.Data.{Params, Replay, Outcome, Setting}
use cryptotrader.Backtest.Rules.{trend_up_at, trend_series, entry_ok, exit_reason}

abbrev pub too_early : Option DateTime → DateTime → Bool
too_early none ts = false
too_early (some from) ts = not (not_after from ts)

module _ {W : Type 0} ⦃fl : Float W⦄ where
  abbrev pub entry_or_zero : Option W → W
  entry_or_zero none = lit 0
  entry_or_zero (some entry) = entry

  unfoldable pub close_position : Params W → DateTime → W → String → Replay W → Replay W
  close_position p ts close reason s =
      let entry = entry_or_zero s.entry in
      let pnl = (close - entry) * s.qty in
      let both_legs = pnl - fl.quot ((close + entry) * s.qty * p.fee_pct) (lit 100) in
      let equity = s.equity + both_legs in
      let equity_peak = max s.equity_peak equity in
      record s {
        gross = s.gross + pnl;
        fees = s.fees + fl.quot (close * s.qty * p.fee_pct) (lit 100);
        round_trips = suc s.round_trips;
        wins = if gt both_legs (lit 0) then suc s.wins else s.wins;
        trades =
            s.trades
            ++ record {
              ts = ts;
              side = Side.sell;
              price = close;
              quantity = s.qty;
              reason = reason;
            }
              ∷ [];
        equity = equity;
        equity_peak = equity_peak;
        max_dd = max s.max_dd (equity_peak - equity);
        in_pos = false;
        entry = none;
        qty = lit 0;
        peak = lit 0;
        last_exit_ts = some ts;
      }

  unfoldable pub open_position : Params W → DateTime → W → W → Replay W → Replay W
  open_position p ts close qty s = record s {
    qty = qty;
    in_pos = true;
    entry = some close;
    peak = close;
    fees = s.fees + fl.quot (close * qty * p.fee_pct) (lit 100);
    trades =
        s.trades
        ++ record { ts = ts; side = Side.buy; price = close; quantity = qty; reason = "breakout" }
          ∷ [];
  }

  -- `budget_usd / close if budget_usd else fixed_qty`
  abbrev pub sized : Setting W → W → Result W
  sized g close = if fl.eq g.budget_usd (lit 0) then ok g.fixed_qty else div g.budget_usd close

  abbrev pub end_if : Params W → DateTime → W → Replay W → Option String → Replay W
  end_if p ts close s none = s
  end_if p ts close s (some reason) = close_position p ts close reason s

  -- An hour with a position, and one without.
  unfoldable pub hold_hour : Params W → DateTime → W → W → Replay W → Result (Replay W)
  hold_hour p ts close mid s =
      let held = record s { hours_in_market = suc s.hours_in_market; peak = max s.peak close } in
      exit_reason p close mid held >>= λ reason. ok (end_if p ts close held reason)

  abbrev pub cooling : Params W → DateTime → Option DateTime → Bool
  cooling p ts none = false
  cooling p ts (some last) =
      not (nat_beq p.cooldown_hours 0)
      && ltb (instant ts) (plus (instant last) (times p.cooldown_hours 3_600_000_000))

  abbrev pub enter_if : Setting W → DateTime → W → Replay W → Bool → Result (Replay W)
  enter_if g ts close s false = ok s
  enter_if g ts close s true = sized g close >>= λ qty. ok (open_position g.params ts close qty s)

  unfoldable pub flat_hour :
      (W → ℕ)
      → Setting W
      → List (DateTime × Bool)
      → DateTime
      → W
      → W
      → W
      → W
      → W
      → List W
      → Replay W
      → Result (Replay W)
  flat_hour trunc g trend ts close upper width prev_width bw_pct hist s =
      if cooling g.params ts s.last_exit_ts
      then ok s
      else if g.params.trend_filter && not (trend_up_at trend ts)
      then ok s
      else (entry_ok trunc g.params close upper width prev_width bw_pct hist
          >>= enter_if g ts close s)

  -- A candle whose bands, and those before it, are there.
  unfoldable pub trade_hour :
      (W → ℕ)
      → Setting W
      → List (DateTime × Bool)
      → DateTime × W
      → W × W × W
      → W × W × W
      → Replay W
      → Result (Replay W)
  trade_hour trunc g trend (ts, close) (upper, mid, lower) (pupper, pmid, plower) s =
      let width = upper - lower in
      let prev_width = pupper - plower in
      let bw_pct = if fl.eq mid (lit 0) then lit 0 else fl.quot width mid * lit 100 in
      let hist = s.bw_hist in
      let seen = record s { bw_hist = hist ++ width ∷ [] } in
      let counted = record seen { hours_total = suc s.hours_total } in
      if too_early g.trade_from ts
      then ok seen
      else if s.in_pos
      then hold_hour g.params ts close mid counted
      else flat_hour trunc g trend ts close upper width prev_width bw_pct hist counted

  abbrev pub banded_hour :
      (W → ℕ)
      → Setting W
      → List (DateTime × Bool)
      → DateTime × W
      → Option (W × W × W)
      → Option (W × W × W)
      → Replay W
      → Result (Replay W)
  banded_hour trunc g trend candle none prev s = ok s
  banded_hour trunc g trend candle (some curr) none s = ok s
  banded_hour trunc g trend candle (some curr) (some prev) s =
      trade_hour trunc g trend candle curr prev s

  -- The loop over the candles, by the closes before them.
  unfoldable pub replay :
      (W → ℕ)
      → Setting W
      → List (DateTime × Bool)
      → List W
      → List (DateTime × W)
      → Replay W
      → Result (Replay W)
  replay trunc g trend closes [] s = ok s
  replay trunc g trend closes ((ts, close) ∷ rest) s =
      let more = replay trunc g trend (closes ++ close ∷ []) rest in
      bollinger_bands (closes ++ close ∷ []) g.params.period g.params.std_dev >>= λ curr.
      bollinger_bands closes g.params.period g.params.std_dev >>= λ prev.
      banded_hour trunc g trend (ts, close) curr prev s >>= more

  unfoldable pub new_replay : Replay W
  new_replay = record {
    trades = [];
    round_trips = 0;
    wins = 0;
    gross = lit 0;
    fees = lit 0;
    max_dd = lit 0;
    hours_in_market = 0;
    hours_total = 0;
    in_pos = false;
    entry = none;
    qty = lit 0;
    peak = lit 0;
    last_exit_ts = none;
    bw_hist = [];
    equity = lit 0;
    equity_peak = lit 0;
  }

  -- The benchmark over the closes of the window.
  abbrev pub benchmark : Setting W → List W → Result W
  benchmark g [] = ok (lit 0)
  benchmark g (first ∷ rest) = sized g first >>= λ units.
      or_raise index_error (last? (first ∷ rest)) >>= λ last. ok ((last - first) * units)

  unfoldable pub run :
      (W → ℕ) → Setting W → List (DateTime × W) → List (DateTime × W) → Result (Outcome W)
  run trunc g c60 c240 =
      (if g.params.trend_filter then trend_series c240 g.params.trend_period else ok [])
      >>= λ trend. replay trunc g trend [] c60 new_replay >>= λ s.
          benchmark g (map (λ c. c.1) (filter (λ c. not (too_early g.trade_from c.0)) c60))
          >>= λ buy_hold. ok (record { replay = s; net = s.gross - s.fees; buy_hold = buy_hold })
