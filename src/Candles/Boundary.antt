-- ===== src/Candles/Boundary.antt =====
-- The candle boundary of a tick.
use Prim.Native.Nat.{◌+◌, ◌*◌, ◌/◌, ◌%◌}
use cryptotrader.Prelude.{ℕ, ◌≤◌, ◌<◌, ◌≡◌, refl, arith, ok}
use cryptotrader.Models.Time.{DateTime, IsTime, instant, minute_of_day}
use cryptotrader.Candles.{candle_open}

abbrev pub boundary_of : ℕ → DateTime → DateTime
boundary_of tf ts =
    let aligned = minute_of_day ts / tf * tf in
    record ts { hour = aligned / 60; minute = aligned % 60; second = 0; microsecond = 0 }

pub candle_open-ok : (tf : ℕ) (ts : DateTime) → 0 < tf → candle_open tf ts ≡ ok (boundary_of tf ts)
unfolding candle_open
candle_open-ok tf ts h = ground arith

aligned-le : (tf m : ℕ) → 0 < tf → (m / tf * tf ≤ m) × (m < m / tf * tf + tf)
aligned-le tf m h = grind arith

aligned_idem : (tf q : ℕ) → 0 < tf → q * tf / tf ≡ q
aligned_idem tf q h = grind arith

-- With a positive timeframe the boundary of a time of day is a time of day on the same date, at a
-- whole multiple of the timeframe after midnight, and the time lies in the candle that it opens.
pub candle_open_contains :
    (tf : ℕ) (ts : DateTime)
    → 0 < tf
    → IsTime ts
    → (b : DateTime) × (candle_open tf ts ≡ ok b)
      × IsTime b
      × (b.day ≡ ts.day)
      × (minute_of_day b ≡ minute_of_day ts / tf * tf)
      × (instant b ≤ instant ts)
      × (instant ts < instant b + tf * 60_000_000)
candle_open_contains tf ts h v =
    let (below, above) = aligned-le tf (minute_of_day ts) h in
    (
      boundary_of tf ts,
      candle_open-ok tf ts h,
      omega arith,
      refl,
      omega arith,
      omega arith,
      omega arith,
    )

-- A boundary is its own boundary: a candle's open time falls in that candle.
pub candle_open_idem :
    (tf : ℕ) (ts : DateTime) {b : DateTime} → candle_open tf ts ≡ ok b → candle_open tf b ≡ ok b
unfolding candle_open
candle_open_idem tf ts {b} e = ground (arith, aligned_idem tf (minute_of_day ts / tf))
