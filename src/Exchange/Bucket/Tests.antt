-- ===== src/Exchange/Bucket/Tests.antt =====
-- A bucket of two tokens, one of which comes back each second.
use cryptotrader.Prelude.{◌≡◌, refl, true, [], ◌∷◌, ok}
use cryptotrader.Prelude.Int.{◌*ℤ◌, ℤ, pos, ◌+ℤ◌, ◌-ℤ◌}
use cryptotrader.Float.{div}
use cryptotrader.Float.Cents.{cents_float}
use cryptotrader.Exchange.Bucket.{TokenBucket, new_bucket, refill, nap, spend, acquire}

abbrev bucket : TokenBucket ℤ
bucket = record { capacity = pos 2; tokens = pos 2; refill_rate = pos 1; last_refill = pos 100 }

abbrev spent : TokenBucket ℤ
spent = record bucket { tokens = pos 0 }

starts_full : new_bucket (pos 2) (pos 1) (pos 100) ≡ bucket
unfolding new_bucket
starts_full = refl

-- Two calls come through at once, the third sleeps for a second.
third_sleeps :
    acquire (pos 100 ∷ pos 101 ∷ []) spent ≡ (ok true, record spent { last_refill = pos 101 })
unfolding acquire refill nap spend div ◌+ℤ◌ ◌-ℤ◌ ◌*ℤ◌
third_sleeps = refl

abbrev one_left : TokenBucket ℤ
one_left = record bucket { tokens = pos 1 }

first_passes : acquire (pos 100 ∷ []) bucket ≡ (ok true, one_left)
unfolding acquire refill nap spend div ◌+ℤ◌ ◌-ℤ◌ ◌*ℤ◌
first_passes = refl

second_passes : acquire (pos 100 ∷ []) one_left ≡ (ok true, spent)
unfolding acquire refill nap spend div ◌+ℤ◌ ◌-ℤ◌ ◌*ℤ◌
second_passes = refl
