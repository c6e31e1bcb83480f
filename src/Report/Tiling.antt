-- ===== src/Report/Tiling.antt =====
-- The periods of a report join without a gap.
use Prim.Native.Nat.{◌+◌, ◌*◌, ◌-◌, ◌≤◌, ◌<◌}
use cryptotrader.Prelude.{
  ℕ, zero, suc, String, ◌≡◌, refl, ap, Bool-cases, inl, inr, ◌==◌, string_eq, List, [], ◌∷◌, length,
  Result, ok, arith,
}
use cryptotrader.Models.Time.{DateTime}
use cryptotrader.Report.{
  Period, start_of_week, weeks_before, week_period, month_back, periods_from, period_bounds,
}
use cryptotrader.Report.Months.{month_value, month_period-ok, month_values-join}

-- A period begins where the next of the list, the one before it in time, ends.
abbrev pub Tiles : List Period → Type 0
Tiles [] = Unit
Tiles (p ∷ []) = Unit
Tiles (p ∷ q ∷ rest) = (p.0 ≡ q.1) × Tiles (q ∷ rest)

abbrev pub week_value : DateTime → ℕ → Period
week_value start i =
    (record start { day = start.day - 7 * i - 7 }, record start { day = start.day - 7 * i })

week_period-ok :
    (start : DateTime) (i : ℕ)
    → 7 * suc i < start.day
    → week_period start i ≡ ok (week_value start i)
unfolding week_period weeks_before
week_period-ok start i h = ground arith

week_values-join :
    (start : DateTime) (i : ℕ) → (week_value start i).0 ≡ (week_value start (suc i)).1
week_values-join start i = ap (λ d. record start { day = d }) (omega arith)

-- The periods of the rounds from `i` on.
abbrev pub values_from : (ℕ → Period) → ℕ → ℕ → List Period
values_from value i zero = []
values_from value i (suc n) = value i ∷ values_from value (suc i) n

module _ (value : ℕ → Period) where
  periods_from-ok :
      (period : ℕ → Result Period) (i n : ℕ)
      → ((j : ℕ) → j < i + n → period j ≡ ok (value j))
      → periods_from period i n ≡ ok (values_from value i n)
  unfolding periods_from
  periods_from-ok period i zero h = refl
  periods_from-ok period i (suc n) h =
      rw (h i (omega arith), periods_from-ok period (suc i) n (λ j k. h j (omega arith))) refl

  values_from-Tiles :
      (i n : ℕ)
      → ((j : ℕ) → suc j < i + n → (value j).0 ≡ (value (suc j)).1)
      → Tiles (values_from value i n)
  values_from-Tiles i zero h = tt
  values_from-Tiles i (suc zero) h = tt
  values_from-Tiles i (suc (suc n)) h =
      (h i (omega arith), values_from-Tiles (suc i) (suc n) (λ j k. h j (omega arith)))

length-values_from : (value : ℕ → Period) (i n : ℕ) → length (values_from value i n) ≡ n
length-values_from value i zero = refl
length-values_from value i (suc n) = ap suc (length-values_from value (suc i) n)

-- Where the periods asked for lie within the calendar, and the clock is before the year 9999,
-- `period_bounds` returns as many as were asked for, and each begins at the instant where the next
-- one, the one before it in time, ends; the loop over the months ends within its fuel.
pub period_bounds_tile :
    (first_of : ℕ → ℕ → DateTime) (now : DateTime) (year month : ℕ) (period : String) (back : ℕ)
    → 1 ≤ month
    → month ≤ 12
    → 7 * back < (start_of_week now).day
    → back + 12 ≤ 12 * year + month
    → year < 9999
    → (ps : List Period) × (period_bounds first_of now year month period back ≡ ok ps)
      × Tiles ps
      × (length ps ≡ back)
unfolding period_bounds
period_bounds_tile first_of now year month period back low high weeks months last =
    elim (Bool-cases (period == "weekly")) [
      | inl weekly ↦
          let value = week_value (start_of_week now) in
          (
            values_from value 0 back,
            rw weekly (
                periods_from-ok value _ 0 back
                  (λ j k. week_period-ok (start_of_week now) j (omega arith))),
            values_from-Tiles value 0 back (λ j k. week_values-join (start_of_week now) j),
            length-values_from value 0 back,
          )
      | inr monthly ↦
          let value = λ (j : ℕ). month_value first_of (month_back year month j) in
          (
            values_from value 0 back,
            rw monthly (
                periods_from-ok value _ 0 back
                  (λ j k. month_period-ok first_of year month j low high (omega arith) last)),
            values_from-Tiles value 0 back
                (λ j k. month_values-join first_of year month j low high (omega arith)),
            length-values_from value 0 back,
          )
    ]
