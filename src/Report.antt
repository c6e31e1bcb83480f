-- ===== src/Report.antt =====
-- scripts/report.py: the periods of a report and the figures of one. The clock, the calendar of
-- `datetime` and the settings are arguments; labels and the printed table are not modelled.
pub mod Months
pub mod Tiling
mod Tests
use Prim.Native.Nat.{◌+◌, ◌*◌, ◌-◌, ◌%◌}
use cryptotrader.Prelude.{
  ◌||◌, ℕ, zero, suc, String, Bool, true, false, ltb, leb, nat_beq, ◌==◌, string_eq, if◌then◌else◌,
  Option, none, some, List, [], ◌∷◌, map, filter, Result, ok, raise, ◌>>=◌, value_error,
  overflow_error, not,
}
use cryptotrader.Prelude.Dict.{Dict}
use cryptotrader.Prelude.Int.{ℤ, pos, pos_part, ◌+ℤ◌, ◌-ℤ◌, leb_ℤ}
use cryptotrader.Float.{Float, gt}
use cryptotrader.Models.{StatsResult}
use cryptotrader.Models.Time.{DateTime}
use cryptotrader.Database.{Database, Filters, no_filters}
use cryptotrader.Statistics.{compute}

-- A period, from and to.
abbrev pub Period : Type 0
Period = DateTime × DateTime

-- `now.weekday()`: the first day of the calendar is a Monday.
abbrev pub weekday : DateTime → ℕ
weekday now = (now.day + 6) % 7

unfoldable pub start_of_week : DateTime → DateTime
start_of_week now = record {
  day = now.day - weekday now;
  hour = 0;
  minute = 0;
  second = 0;
  microsecond = 0;
}

-- `t - timedelta(weeks=i)`, which raises before the first day.
unfoldable pub weeks_before : DateTime → ℕ → Result DateTime
weeks_before t i =
    if ltb (7 * i) t.day then ok (record t { day = t.day - 7 * i }) else raise overflow_error

unfoldable pub week_period : DateTime → ℕ → Result Period
week_period start i =
    weeks_before start i >>= λ until. weeks_before until 1 >>= λ since. ok (since, until)

-- `while m <= 0`, on fuel: `(m, y)`.
unfoldable pub carry_months : ℕ → ℤ → ℤ → ℤ × ℤ
carry_months zero m y = (m, y)
carry_months (suc f) m y =
    let rest = carry_months f (m +ℤ pos 12) (y -ℤ pos 1) in if leb_ℤ m (pos 0) then rest else (m, y)

-- The fuel is the months that the period lies back, which are more than the rounds.
abbrev pub month_back : ℕ → ℕ → ℕ → ℤ × ℤ
month_back year month i = carry_months i (pos month -ℤ pos i) (pos year)

-- `datetime(y, m, 1)`, of the calendar: its years are those from 1 to 9999.
abbrev pub first_day : (ℕ → ℕ → DateTime) → ℤ → ℕ → Result DateTime
first_day first_of y m =
    if leb_ℤ y (pos 0) || ltb 9999 (pos_part y)
    then raise value_error
    else ok (first_of (pos_part y) m)

abbrev pub next_month : (ℕ → ℕ → DateTime) → ℤ → ℕ → Result DateTime
next_month first_of y m =
    if nat_beq m 12 then first_day first_of (y +ℤ pos 1) 1 else first_day first_of y (m + 1)

abbrev pub month_of : (ℕ → ℕ → DateTime) → ℤ × ℤ → Result Period
month_of first_of (m, y) = first_day first_of y (pos_part m) >>= λ since.
    next_month first_of y (pos_part m) >>= λ until. ok (since, until)

unfoldable pub month_period : (ℕ → ℕ → DateTime) → ℕ → ℕ → ℕ → Result Period
month_period first_of year month i = month_of first_of (month_back year month i)

-- The loop `for i in range(back)`, from a round on.
unfoldable pub periods_from : (ℕ → Result Period) → ℕ → ℕ → Result (List Period)
periods_from period i zero = ok []
periods_from period i (suc n) =
    let rest = periods_from period (suc i) n in period i >>= λ p. rest >>= λ ps. ok (p ∷ ps)

-- `_period_bounds`, of the clock and its date.
unfoldable pub period_bounds :
    (ℕ → ℕ → DateTime) → DateTime → ℕ → ℕ → String → ℕ → Result (List Period)
period_bounds first_of now year month period back =
    if period == "weekly"
    then periods_from (week_period (start_of_week now)) 0 back
    else periods_from (month_period first_of year month) 0 back

module _ (W : Type 0) where
  pub record StrategyReport : Type 0 where
    pub name : String
    pub by_pair : List (String × StatsResult W)
    pub total : StatsResult W

  pub record PeriodReport : Type 0 where
    pub strategies : List StrategyReport
    pub best_wr : Option String
    pub best_pnl : Option String

abbrev pub period_filters : String → String → Period → Filters
period_filters mode strategy (since, until) = record no_filters {
  mode = some mode;
  strategy = some strategy;
  since = some since;
  until = some until;
}

module _ {W : Type 0} ⦃fl : Float W⦄ where
  unfoldable pub strategy_report :
      Database W → List String → String → Period → String → StrategyReport W
  strategy_report db pairs mode period name = record {
    name = name;
    by_pair =
        map (λ p. (p, compute db (record (period_filters mode name period) { pair = some p })))
          pairs;
    total = compute db (period_filters mode name period);
  }

  -- `max(active, key=...)`, the first of the greatest.
  unfoldable pub best_of : (StatsResult W → W) → StrategyReport W → List (StrategyReport W) → String
  best_of key best [] = best.name
  best_of key best (r ∷ rest) =
      best_of key (if gt (key r.total) (key best.total) then r else best) rest

  abbrev pub best_in : (StatsResult W → W) → List (StrategyReport W) → Option String
  best_in key [] = none
  best_in key (r ∷ rest) = some (best_of key r rest)

  abbrev pub is_active : StrategyReport W → Bool
  is_active r = ltb 0 r.total.total_trades

  -- `_render_period`, what it prints of.
  unfoldable pub render_period :
      Database W → List String → List String → String → Period → PeriodReport W
  render_period db strategies pairs mode period =
      let reports = map (strategy_report db pairs mode period) strategies in
      let active = filter is_active reports in
      record {
        strategies = reports;
        best_wr = best_in (λ r. r.win_rate) active;
        best_pnl = best_in (λ r. r.total_pnl) active;
      }

  -- `main`
  unfoldable pub report :
      Database W
      → List String
      → List String
      → String
      → Result (List Period)
      → Result (List (PeriodReport W))
  report db strategies pairs mode bounds =
      bounds >>= λ ps. ok (map (render_period db strategies pairs mode) ps)
