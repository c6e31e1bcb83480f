-- ===== src/Backtest/Rules.antt =====
-- scripts/backtest.py: the fee gate, the trend, the entry rule and the exit rule. `trunc` is Python's
-- `int` on a float.
use cryptotrader.Prelude.{
  ℕ, String, Bool, false, not, ltb, nat_beq, ◌&&◌, ◌==◌, string_eq, if◌then◌else◌, Option, none,
  some, List, [], ◌∷◌, ◌++◌, length, take_last, drop, drop_last, last?, Result, ok, raise,
  value_error, index_error, or_raise, ◌>>=◌,
}
use cryptotrader.Float.{Float, ◌+◌, ◌-◌, ◌*◌, lit, lt, le, gt, ge}
use cryptotrader.Models.Time.{DateTime, not_after}
use cryptotrader.Indicators.{ema}
use cryptotrader.Reconcile.{sorted}
use cryptotrader.Backtest.Data.{Params, Replay}

-- The loop, with its `verdict`.
unfoldable pub verdict_at : Bool → List (DateTime × Bool) → DateTime → Bool
verdict_at verdict [] ts = verdict
verdict_at verdict ((t, rising) ∷ rest) ts =
    if not_after ts t then verdict else verdict_at rising rest ts

unfoldable pub trend_up_at : List (DateTime × Bool) → DateTime → Bool
trend_up_at = verdict_at false

abbrev pub first_of : {A : Type 0} → List A → Option A
first_of [] = none
first_of (a ∷ rest) = some a

module _ {W : Type 0} ⦃fl : Float W⦄ where
  unfoldable pub clears_fees : Params W → W → W → W → Bool
  clears_fees p close entry qty = elim p.legacy_flat_gate_usd [
    | some usd ↦ ge ((close - entry) * qty) (usd * lit 2)
    | none ↦ ge (close - entry) (fl.quot ((close + entry) * p.fee_pct) (lit 100))
  ]

  abbrev pub share : ℕ → ℕ → W
  share part whole = if nat_beq whole 0 then lit 0 else fl.quot (lit 100 * lit part) (lit whole)

  unfoldable pub win_rate : Replay W → W
  win_rate s = share s.wins s.round_trips

  unfoldable pub exposure : Replay W → W
  exposure s = share s.hours_in_market s.hours_total

  -- `len(e) >= 2 and e[-1] > e[-2]`
  abbrev pub rises : List W → Bool
  rises e = elim (last? e) [
    | none ↦ false
    | some x ↦ elim (last? (drop_last e)) [ none ↦ false | some y ↦ gt x y ]
  ]

  -- Over the closes so far and the candles to come.
  unfoldable pub trend_from : ℕ → List W → List (DateTime × W) → Result (List (DateTime × Bool))
  trend_from period closes [] = ok []
  trend_from period closes ((ts, close) ∷ rest) =
      let later = trend_from period (closes ++ close ∷ []) rest in
      ema (closes ++ close ∷ []) period >>= λ e. later >>= λ tail. ok ((ts, rises e) ∷ tail)

  unfoldable pub trend_series : List (DateTime × W) → ℕ → Result (List (DateTime × Bool))
  trend_series c240 period = trend_from period [] c240

  unfoldable pub entry_ok : (W → ℕ) → Params W → W → W → W → W → W → List W → Result Bool
  entry_ok trunc p close upper width prev_width bw_pct hist =
      let window = take_last p.squeeze_lookback hist in
      let ranked = sorted (λ x y. not (lt y x)) window in
      let at = trunc (fl.quot (lit (length ranked) * p.squeeze_pctile) (lit 100)) in
      if le close upper
      then ok false
      else if p.entry_mode == "bw_floor"
      then ok (gt width prev_width && ge bw_pct p.min_bw_pct)
      else if not (p.entry_mode == "squeeze")
      then raise value_error
      else if le width prev_width
      then ok false
      else if ltb (length window) 20
      then ok false
      else (or_raise index_error (first_of (drop at ranked)) >>= λ cutoff.
          ok (le prev_width cutoff))

  abbrev pub at_stop : Params W → W → Option W → Bool
  at_stop p close none = false
  at_stop p close (some entry) = le close (entry * (lit 1 - fl.quot p.stop_loss_pct (lit 100)))

  abbrev pub gated : Params W → W → W → Option W → Bool
  gated p close qty none = false
  gated p close qty (some entry) = not (clears_fees p close entry qty)

  -- The rule that ends a position, if one does: `reason` of the source, with `none` for "".
  unfoldable pub exit_reason : Params W → W → W → Replay W → Result (Option String)
  exit_reason p close mid s =
      if gt p.stop_loss_pct (lit 0) && at_stop p close s.entry
      then ok (some "stop_loss")
      else if p.exit_mode == "trailing"
      then ok (
          if le close (s.peak * (lit 1 - fl.quot p.trailing_pct (lit 100)))
          then some "trailing"
          else none)
      else if p.exit_mode == "mid_band"
      then ok (
          if lt close mid && not (p.fee_gate && gated p close s.qty s.entry)
          then some "mid_band"
          else none)
      else raise value_error
