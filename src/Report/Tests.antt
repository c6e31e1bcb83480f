-- ===== src/Report/Tests.antt =====
-- Three months over the turn of a year, two weeks, and the best of two strategies.
use Prim.Native.Nat.{◌+◌, ◌*◌, ◌<◌}
use cryptotrader.Prelude.{
  ℕ, String, ◌≡◌, refl, some, List, [], ◌∷◌, length, ok, raise, overflow_error, arith, string_eq,
}
use cryptotrader.Prelude.Int.{◌+ℤ◌, ◌-ℤ◌, ℤ, pos}
use cryptotrader.Float.Cents.{cents_float}
use cryptotrader.Models.Time.{DateTime}
use cryptotrader.Report.{
  Period, start_of_week, weeks_before, week_period, carry_months, month_period, periods_from,
  period_bounds, StrategyReport, best_in, best_of,
}
use cryptotrader.Report.Tiling.{Tiles, period_bounds_tile}

abbrev day : ℕ → DateTime
day n = record { day = n; hour = 0; minute = 0; second = 0; microsecond = 0 }

-- A calendar of months of 31 days.
abbrev first_of : ℕ → ℕ → DateTime
first_of y m = day (372 * y + 31 * m)

-- A Sunday.
abbrev now : DateTime
now = record { day = 738_003; hour = 9; minute = 30; second = 1; microsecond = 5 }

over_new_year :
    period_bounds first_of now 2026 2 "monthly" 3
    ≡ ok (
        (first_of 2026 2, first_of 2026 3)
        ∷ (first_of 2026 1, first_of 2026 2)
        ∷ (first_of 2025 12, first_of 2026 1)
        ∷ [])
unfolding period_bounds periods_from month_period carry_months ◌+ℤ◌ ◌-ℤ◌
over_new_year = refl

two_weeks :
    period_bounds first_of now 2026 2 "weekly" 2
    ≡ ok ((day 737_990, day 737_997) ∷ (day 737_983, day 737_990) ∷ [])
unfolding period_bounds periods_from week_period weeks_before start_of_week
two_weeks = refl

before_the_calendar : period_bounds first_of (day 9) 1 1 "weekly" 2 ≡ raise overflow_error
unfolding period_bounds periods_from week_period weeks_before start_of_week
before_the_calendar = refl

late : 21 < (start_of_week now).day
unfolding start_of_week
late = omega arith

period_bounds_tile_example :
    (ps : List Period) × (period_bounds first_of now 2026 2 "monthly" 3 ≡ ok ps)
    × Tiles ps
    × (length ps ≡ 3)
period_bounds_tile_example =
    period_bounds_tile first_of now 2026 2 "monthly" 3 (omega arith) (omega arith) late
      (omega arith) (omega arith)

abbrev strategy : String → ℕ → StrategyReport ℤ
strategy name total = record {
  name = name;
  by_pair = [];
  total = record {
    total_trades = 1;
    win_rate = pos 50;
    total_pnl = pos total;
    avg_gain = pos 0;
    avg_loss = pos 0;
    buys = 1;
    sells = 1;
  };
}

-- The first of two that are as good.
first_best :
    best_in
      (λ r. r.total_pnl)
      (strategy "threshold" 3 ∷ strategy "ema" 8 ∷ strategy "bollinger" 8 ∷ [])
    ≡ some "ema"
unfolding best_of
first_best = refl
