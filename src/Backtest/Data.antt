-- ===== src/Backtest/Data.antt =====
-- scripts/backtest.py: the records `Params`, `BtTrade` and `Result`, and the variables of `run`.
use cryptotrader.Prelude.{ℕ, String, Bool, string_eq, Option, List}
use cryptotrader.Models.{Side}
use cryptotrader.Models.Time.{DateTime}

module _ (W : Type 0) where
  pub record Params : Type 0 where
    pub period : ℕ
    pub std_dev : W
    pub min_bw_pct : W
    pub stop_loss_pct : W
    pub trend_filter : Bool
    pub trend_period : ℕ
    pub fee_pct : W
    pub legacy_flat_gate_usd : Option W
    pub exit_mode : String
    pub trailing_pct : W
    pub entry_mode : String
    pub squeeze_lookback : ℕ
    pub squeeze_pctile : W
    pub fee_gate : Bool
    pub cooldown_hours : ℕ

  pub record BtTrade : Type 0 where
    pub ts : DateTime
    pub side : Side
    pub price : W
    pub quantity : W
    pub reason : String

  -- The fields of a `Result` that the loop of `run` changes, and the variables of the loop.
  pub record Replay : Type 0 where
    pub trades : List BtTrade
    pub round_trips : ℕ
    pub wins : ℕ
    pub gross : W
    pub fees : W
    pub max_dd : W
    pub hours_in_market : ℕ
    pub hours_total : ℕ
    pub in_pos : Bool
    pub entry : Option W
    pub qty : W
    pub peak : W
    pub last_exit_ts : Option DateTime
    pub bw_hist : List W
    pub equity : W
    pub equity_peak : W

  -- What `run` adds at its end.
  pub record Outcome : Type 0 where
    pub replay : Replay
    pub net : W
    pub buy_hold : W

  -- The arguments of `run` beside the candles: the rules, the size, and the start of trading.
  pub record Setting : Type 0 where
    pub params : Params
    pub budget_usd : W
    pub fixed_qty : W
    pub trade_from : Option DateTime
