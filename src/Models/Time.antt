-- ===== src/Models/Time.antt =====
-- A UTC `datetime`: the ordinal of its date and the time of day. Two are compared as instants.
use Prim.Native.Nat.{◌+◌, ◌*◌, ◌/◌, ◌%◌}
use cryptotrader.Prelude.{ℕ, ◌≤◌, ◌<◌, ◌≡◌, ◌↔◌, Bool, true, ◌&&◌, arith, leb, nat_beq, Eq}

pub record DateTime : Type 0 where
  pub day : ℕ
  pub hour : ℕ
  pub minute : ℕ
  pub second : ℕ
  pub microsecond : ℕ

-- The ranges that the constructor of `datetime` enforces.
pub record IsTime (t : DateTime) : Type 0 where
  pub hours : t.hour < 24
  pub minutes : t.minute < 60
  pub seconds : t.second < 60
  pub microseconds : t.microsecond < 1_000_000

-- Minutes since midnight.
abbrev pub minute_of_day : DateTime → ℕ
minute_of_day t = t.hour * 60 + t.minute

-- Microseconds since the first day.
abbrev pub instant : DateTime → ℕ
instant t = ((t.day * 1440 + minute_of_day t) * 60 + t.second) * 1_000_000 + t.microsecond

abbrev pub of_instant : ℕ → DateTime
of_instant n =
    let s = n / 1_000_000 in
    record {
      day = s / 86_400;
      hour = s / 3600 % 24;
      minute = s / 60 % 60;
      second = s % 60;
      microsecond = n % 1_000_000;
    }

-- `a <= b` on two datetimes; `now >= deadline` is `not_after deadline now`.
abbrev pub not_after : DateTime → DateTime → Bool
not_after a b = leb (instant a) (instant b)

-- `t + timedelta(seconds=n)`
unfoldable pub add_seconds : DateTime → ℕ → DateTime
add_seconds t n = of_instant (instant t + n * 1_000_000)

-- `t.replace(hour=0, minute=0, second=0, microsecond=0)`
unfoldable pub midnight : DateTime → DateTime
midnight t = record t { hour = 0; minute = 0; second = 0; microsecond = 0 }

abbrev pub time_beq : DateTime → DateTime → Bool
time_beq a b =
    nat_beq a.day b.day
    && nat_beq a.hour b.hour
    && nat_beq a.minute b.minute
    && nat_beq a.second b.second
    && nat_beq a.microsecond b.microsecond

pub time_beq_iff : (a b : DateTime) → (time_beq a b ≡ true) ↔ (a ≡ b)
time_beq_iff a b = ground arith

instance abbrev pub time_eq : Eq DateTime
time_eq = record { beq = time_beq; beq_iff = time_beq_iff }

pub instant-of_instant : (n : ℕ) → instant (of_instant n) ≡ n
instant-of_instant n = omega arith

pub of_instant-IsTime : (n : ℕ) → IsTime (of_instant n)
of_instant-IsTime n = omega arith

-- Adding seconds moves the instant by exactly as many, and gives a proper time of day.
pub add_seconds_lem :
    (t : DateTime) (n : ℕ)
    → (instant (add_seconds t n) ≡ instant t + n * 1_000_000) × IsTime (add_seconds t n)
unfolding add_seconds
add_seconds_lem t n =
    let k = instant t + n * 1_000_000 in (instant-of_instant k, of_instant-IsTime k)

pub midnight-le : (t : DateTime) → instant (midnight t) ≤ instant t
unfolding midnight
midnight-le t = omega arith
