-- ===== src/Samples.antt =====
-- Concrete prices, trades and settings for the tests, in whole units.
use cryptotrader.Prelude.{ℕ, String, Bool, true, false, none, some, List, [], ◌∷◌, ok}
use cryptotrader.Prelude.Int.{ℤ, pos}
use cryptotrader.Float.Cents.{cents_float}
use cryptotrader.Models.{Side, PriceTick, Trade}
use cryptotrader.Models.Time.{DateTime}
use cryptotrader.Database.{Database, empty_database}
use cryptotrader.Strategy.{Strategy, CurrencyConfig, threshold_s}
use cryptotrader.Strategy.Threshold.{new_threshold}
use cryptotrader.Strategy.Bollinger.{BollingerParams}
use cryptotrader.Desk.{Desk, RestingEntry}
use cryptotrader.Executor.{Settings, Answers, Order}
use cryptotrader.Trader.{Callback, Turn}

abbrev pub at : ℕ → ℕ → DateTime
at h m = record { day = 100; hour = h; minute = m; second = 7; microsecond = 0 }

abbrev pub tick_at : DateTime → ℕ → PriceTick ℤ
tick_at t price = record {
  pair = "BTC/USD";
  bid = pos price;
  ask = pos price;
  last = pos price;
  timestamp = t;
}

-- Three ticks over two candles of an hour.
abbrev pub some_ticks : List (PriceTick ℤ)
some_ticks = tick_at (at 9 5) 100 ∷ tick_at (at 9 30) 120 ∷ tick_at (at 10 0) 90 ∷ []

abbrev pub row : Side → DateTime → ℕ → ℕ → String → Trade ℤ
row side t price quantity mode = record {
  pair = "BTC/USD";
  side = side;
  price = pos price;
  quantity = pos quantity;
  mode = mode;
  strategy = "threshold";
  timestamp = t;
  pnl = none;
  txid = none;
  band_width = none;
}

abbrev pub bought : Trade ℤ
bought = row Side.buy (at 8 0) 100 300000000 "production"

abbrev pub sold : Trade ℤ
sold = row Side.sell (at 9 0) 130 100000000 "production"

abbrev pub db_of : List (Trade ℤ) → Database ℤ
db_of ts = record empty_database { trades = ts; unique_trades = true }

abbrev pub bands : BollingerParams ℤ
bands = record {
  period = 20;
  std_dev = pos 2;
  min_band_width_pct = pos 0;
  fee_pct = pos 1;
  stop_loss_pct = pos 0;
  trend_filter_enabled = false;
  trend_timeframe_minutes = 240;
  trend_ema_period = 20;
}

abbrev pub pair_config : CurrencyConfig ℤ
pair_config = record {
  strategy = "threshold";
  quantity = pos 3;
  budget_usd = none;
  max_order_usd = pos 1000;
  threshold = record { buy_trigger = pos 110; sell_trigger = pos 125 };
  ema = record { fast_period = 2; slow_period = 3; atr_period = 2; atr_min_pct = pos 0 };
  bollinger = bands;
  trend_pullback = record { trend_ema_period = 3; pullback_ema_period = 2 };
}

abbrev pub settings : String → Bool → Settings ℤ
settings mode maker = record {
  active = mode;
  max_daily_loss_usd = pos 50;
  maker_entries = maker;
  maker_wait_seconds = 60;
  maker_max_drift_pct = pos 1;
  currencies = ("BTC/USD", pair_config) ∷ [];
}

-- An exchange that answers every call and holds 500 dollars.
abbrev pub answers : Answers ℤ
answers = record {
  today = at 10 0;
  now = at 10 0;
  balance = ok (("ZUSD", pos 500) ∷ []);
  place_order = ok "T1";
  place_post_only = ok "P1";
  reject_writable = true;
  trade_writable = true;
}

abbrev pub order : Side → Order ℤ Callback
order side = record {
  side = side;
  pair = "BTC/USD";
  price = pos 100;
  strategy = "threshold";
  band_width = none;
  on_reject = some ("BTC/USD", "threshold");
}

abbrev pub desk : Database ℤ → Desk ℤ Callback
desk db = record { db = db; sent = []; tui = none; has_book = true; resting = []; called = [] }

abbrev pub entry : String → RestingEntry ℤ Callback
entry name = record {
  pair = "BTC/USD";
  limit_price = pos 100;
  quantity = pos 3;
  strategy = name;
  mode = "test";
  deadline = at 10 30;
  max_drift_pct = pos 5;
  band_width = none;
  on_reject = some ("BTC/USD", name);
  placed_at = at 10 0;
  txid = some "P1";
}

-- Two entries rest.
abbrev pub busy_desk : Desk ℤ Callback
busy_desk = record (desk empty_database) {
  resting = (("BTC/USD", "threshold"), entry "threshold") ∷ (("BTC/USD", "ema"), entry "ema") ∷ [];
}

abbrev pub fresh : Strategy ℤ
fresh = threshold_s (new_threshold pair_config.threshold)

abbrev pub turn : Turn ℤ
turn = record { feed_healthy = true; answers = answers }
