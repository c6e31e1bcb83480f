-- ===== src/Report/Months.antt =====
-- The months of a report: the loop that carries a month into its year, and the joins.
use Prim.Native.Nat.{◌+◌, ◌*◌, ◌≤◌, ◌<◌}
use cryptotrader.Prelude.{
  ℕ, zero, suc, ◌≡◌, refl, ap, ◌∙◌, true, false, nat_beq, nat_beq_iff, Bool-cases, inl, inr, ◌⊎◌,
  string_eq, if◌then◌else◌, ok, arith,
}
use cryptotrader.Prelude.Int.{
  ℤ, pos, negsuc, pos_part, neg_part, ◌+ℤ◌, ◌-ℤ◌, leb_ℤ, +ℤ_parts, -ℤ_parts,
}
use cryptotrader.Models.Time.{DateTime}
use cryptotrader.Report.{Period, carry_months, month_back, month_of, month_period}

-- A round of the loop.
twelve_more :
    (f : ℕ) (m : ℤ)
    → leb_ℤ m (pos 0) ≡ true
    → neg_part m + 1 ≤ pos_part m + 12 * suc f
    → (neg_part (m +ℤ pos 12) + 1 ≤ pos_part (m +ℤ pos 12) + 12 * f) × (pos_part (m +ℤ pos 12) ≤ 12)
unfolding ◌+ℤ◌
twelve_more f (pos n) h k = ground arith
twelve_more f (negsuc n) h k = ground arith

stopped : (m : ℤ) → leb_ℤ m (pos 0) ≡ false → (1 ≤ pos_part m) × (neg_part m ≡ 0)
stopped (pos n) h = ground arith
stopped (negsuc n) h = ground arith

-- The loop ends by its test, and moves whole years.
abbrev IsCarried : ℤ → ℤ → ℤ × ℤ → Type 0
IsCarried m y r =
    (1 ≤ pos_part r.0)
    × (pos_part r.0 ≤ 12)
    × (neg_part r.0 ≡ 0)
    × (12 * pos_part r.1 + pos_part r.0 + 12 * neg_part y + neg_part m
        ≡ 12 * neg_part r.1 + pos_part m + 12 * pos_part y)

carry_months-IsCarried :
    (f : ℕ) (m y : ℤ)
    → neg_part m + 1 ≤ pos_part m + 12 * f
    → pos_part m ≤ 12
    → IsCarried m y (carry_months f m y)
unfolding carry_months
carry_months-IsCarried zero (pos n) y h k = (omega arith, omega arith, omega arith, omega arith)
carry_months-IsCarried zero (negsuc n) y h k = absurd (omega arith)
carry_months-IsCarried (suc f) m y h k = elim (Bool-cases (leb_ℤ m (pos 0))) [
  | inl again ↦
      let next = twelve_more f m again h in
      let (low, high, none_left, same) =
        carry_months-IsCarried f (m +ℤ pos 12) (y -ℤ pos 1) next.0 next.1 in
      rw again (low, high, none_left, omega (arith, same, +ℤ_parts m (pos 12), -ℤ_parts y (pos 1)))
  | inr stop ↦ let (low, none_left) = stopped m stop in rw stop (low, k, none_left, omega arith)
]

back-at_most : (month i : ℕ) → month ≤ 12 → pos_part (pos month -ℤ pos i) ≤ 12
unfolding ◌-ℤ◌
back-at_most month i high = ground arith

back-within :
    (month i : ℕ)
    → 1 ≤ month
    → neg_part (pos month -ℤ pos i) + 1 ≤ pos_part (pos month -ℤ pos i) + 12 * i
back-within month i low = omega (arith, -ℤ_parts (pos month) (pos i))

-- The month that lies `i` months back.
abbrev IsBack : ℕ → ℕ → ℕ → ℤ × ℤ → Type 0
IsBack year month i r =
    (1 ≤ pos_part r.0)
    × (pos_part r.0 ≤ 12)
    × (12 * pos_part r.1 + pos_part r.0 + i ≡ 12 * neg_part r.1 + month + 12 * year)

month_back-IsBack :
    (year month i : ℕ) → 1 ≤ month → month ≤ 12 → IsBack year month i (month_back year month i)
month_back-IsBack year month i low high =
    let carried =
      carry_months-IsCarried i (pos month -ℤ pos i) (pos year) (back-within month i low)
        (back-at_most month i high) in
    (carried.0, carried.1, omega (arith, carried.2, carried.3, -ℤ_parts (pos month) (pos i)))

-- A year that is not before the calendar.
parts_apart : (y : ℤ) → (pos_part y ≡ 0) ⊎ (neg_part y ≡ 0)
parts_apart (pos n) = inr refl
parts_apart (negsuc n) = inl refl

back-IsYear :
    (year month i : ℕ) (r : ℤ × ℤ)
    → IsBack year month i r
    → i + 12 < 12 * year + month
    → (1 ≤ pos_part r.1) × (neg_part r.1 ≡ 0)
back-IsYear year month i r h k = elim (parts_apart r.1) [
  | inl before ↦ absurd (omega arith)
  | inr at ↦ (omega arith, at)
]

module _ (first_of : ℕ → ℕ → DateTime) where
  -- A period of a month that is in the calendar.
  abbrev pub month_value : ℤ × ℤ → Period
  month_value (m, y) = (
    first_of (pos_part y) (pos_part m),
    if nat_beq (pos_part m) 12
        then first_of (pos_part y + 1) 1
        else first_of (pos_part y) (pos_part m + 1),
  )

  month_of-value :
      (m : ℤ) (n : ℕ)
      → 1 ≤ n
      → n < 9999
      → month_of first_of (m, pos n) ≡ ok (month_value (m, pos n))
  unfolding ◌+ℤ◌
  month_of-value m n h k = ground arith

  month_value-joins :
      (m m' : ℤ) (n n' : ℕ)
      → 1 ≤ pos_part m
      → pos_part m ≤ 12
      → 1 ≤ pos_part m'
      → pos_part m' ≤ 12
      → 12 * n + pos_part m ≡ 12 * n' + pos_part m' + 1
      → (month_value (m, pos n)).0 ≡ (month_value (m', pos n')).1
  month_value-joins m m' n n' a b c d e = elim (Bool-cases (nat_beq (pos_part m') 12)) [
    | inl december ↦
        let twelve : pos_part m' ≡ 12 = (nat_beq_iff (pos_part m') 12).0 december in
        let year : n ≡ n' + 1 = omega arith in
        let january : pos_part m ≡ 1 = omega arith in
        rw december (ap (λ y. first_of y (pos_part m)) year ∙ ap (first_of (n' + 1)) january)
    | inr earlier ↦
        let below : pos_part m' ≤ 11 = ground arith in
        let year : n ≡ n' = omega arith in
        let next : pos_part m ≡ pos_part m' + 1 = omega arith in
        rw earlier (ap (λ y. first_of y (pos_part m)) year ∙ ap (first_of n') next)
  ]

  pub month_period-ok :
      (year month i : ℕ)
      → 1 ≤ month
      → month ≤ 12
      → i + 12 < 12 * year + month
      → year < 9999
      → month_period first_of year month i ≡ ok (month_value (month_back year month i))
  unfolding month_period
  month_period-ok year month i low high k last =
      let back = month_back-IsBack year month i low high in
      let in_calendar = back-IsYear year month i (month_back year month i) back k in
      of_year (month_back year month i) in_calendar (omega (arith, back, in_calendar))
    where
      of_year :
          (r : ℤ × ℤ)
          → (1 ≤ pos_part r.1) × (neg_part r.1 ≡ 0)
          → pos_part r.1 < 9999
          → month_of first_of r ≡ ok (month_value r)
      of_year (m, pos n) h k = month_of-value m n h.0 k
      of_year (m, negsuc n) h k = absurd (omega arith)

  pub month_values-join :
      (year month i : ℕ)
      → 1 ≤ month
      → month ≤ 12
      → suc i + 12 < 12 * year + month
      → (month_value (month_back year month i)).0 ≡ (month_value (month_back year month (suc i))).1
  month_values-join year month i low high k =
      let now = month_back-IsBack year month i low high in
      let before = month_back-IsBack year month (suc i) low high in
      of_years (month_back year month i) (month_back year month (suc i)) now before
        (back-IsYear year month i (month_back year month i) now (omega arith))
        (back-IsYear year month (suc i) (month_back year month (suc i)) before k)
    where
      of_years :
          (r q : ℤ × ℤ)
          → IsBack year month i r
          → IsBack year month (suc i) q
          → (1 ≤ pos_part r.1) × (neg_part r.1 ≡ 0)
          → (1 ≤ pos_part q.1) × (neg_part q.1 ≡ 0)
          → (month_value r).0 ≡ (month_value q).1
      of_years (m, pos n) (m', pos n') h h' p p' =
          month_value-joins m m' n n' h.0 h.1 h'.0 h'.1 (omega arith)
      of_years (m, negsuc n) (m', y') h h' p p' = absurd (omega arith)
      of_years (m, pos n) (m', negsuc n') h h' p p' = absurd (omega arith)
