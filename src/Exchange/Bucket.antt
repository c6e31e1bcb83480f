-- ===== src/Exchange/Bucket.antt =====
-- cryptotrader/exchange/kraken_rest.py: the class `_TokenBucket`, which paces the private calls.
-- The readings of the monotonic clock are arguments of `acquire`: the first on entry, then one for
-- each sleep that is over. A list that runs out leaves the caller asleep.
mod Tests
use cryptotrader.Prelude.{
  Bool, true, false, raise, if◌then◌else◌, Option, none, some, List, [], ◌∷◌, Result, ok, ◌>>=◌,
}
use cryptotrader.Float.{Float, ◌+◌, ◌-◌, ◌*◌, lit, ge, min, div}

module _ (W : Type 0) where
  pub record TokenBucket : Type 0 where
    pub capacity : W
    pub tokens : W
    pub refill_rate : W
    pub last_refill : W

module _ {W : Type 0} ⦃fl : Float W⦄ where
  -- The capacity and the rate, 15.0 and 0.33 by default, and the clock.
  unfoldable pub new_bucket : W → W → W → TokenBucket W
  new_bucket capacity rate now = record {
    capacity = capacity;
    tokens = capacity;
    refill_rate = rate;
    last_refill = now;
  }

  -- The first lines of a turn of the loop.
  unfoldable pub refill : W → TokenBucket W → TokenBucket W
  refill now b = record b {
    tokens = min b.capacity (b.tokens + (now - b.last_refill) * b.refill_rate);
    last_refill = now;
  }

  -- The seconds of a sleep.
  unfoldable pub nap : TokenBucket W → Result W
  unfolding div
  nap b = div (lit 1 - b.tokens) b.refill_rate

  -- `self._tokens -= 1.0`
  unfoldable pub spend : TokenBucket W → TokenBucket W
  spend b = record b { tokens = b.tokens - lit 1 }

  -- `false` while the caller sleeps.
  unfoldable pub acquire : List W → TokenBucket W → Result Bool × TokenBucket W
  acquire [] b = (ok false, b)
  acquire (now ∷ later) b =
      let full = refill now b in
      let rest = acquire later full in
      if ge full.tokens (lit 1)
      then (ok true, spend full)
      else elim (nap full) [ raise e ↦ (raise e, full) | ok wait ↦ rest ]
