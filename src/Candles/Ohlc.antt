-- ===== src/Candles/Ohlc.antt =====
-- Every candle is a proper bar: its low is the least and its high the greatest of its prices.
use cryptotrader.Prelude.{
  ℕ, ◌≤◌, ◌≡◌, Option, none, some, List, [], ◌∷◌, ok, arith, All, All-append, Option-cases, inl,
  inr, subst, >>=-eq-ok,
}
use cryptotrader.Float.{Float}
use cryptotrader.Float.Laws.{IsOrdered, ◌≼◌}
use cryptotrader.Float.Order.{max-le, min-le}
use cryptotrader.Models.{PriceTick, Candle}
use cryptotrader.Models.Time.{DateTime}
use cryptotrader.Candles.{
  CandleBuilder, start_candle, update_candle, place_tick, add_tick, add_ticks, candle_open,
}

module _ {W : Type 0} ⦃fl : Float W⦄ where
  pub record IsOhlc (c : Candle W) : Type 0 where
    pub low-opening : c.low ≼ c.opening
    pub opening-high : c.opening ≼ c.high
    pub low-close : c.low ≼ c.close
    pub close-high : c.close ≼ c.high
    pub counted : 1 ≤ c.tick_count

  abbrev pub OpenIsOhlc : Option (Candle W) → Type 0
  OpenIsOhlc none = Unit
  OpenIsOhlc (some c) = IsOhlc c

  -- The candles of a builder, the open one too.
  pub record HasOhlc (b : CandleBuilder W) : Type 0 where
    pub closed : All IsOhlc b.completed
    pub current : OpenIsOhlc b.current

module _ {W : Type 0} ⦃fl : Float W⦄ (o : IsOrdered W) where
  start_candle-IsOhlc : (tf : ℕ) (d : DateTime) (t : PriceTick W) → IsOhlc (start_candle tf d t)
  unfolding start_candle
  start_candle-IsOhlc tf d t = record {
    low-opening = o.le_refl t.last;
    opening-high = o.le_refl t.last;
    low-close = o.le_refl t.last;
    close-high = o.le_refl t.last;
    counted = omega arith;
  }

  update_candle-IsOhlc : (c : Candle W) (t : PriceTick W) → IsOhlc c → IsOhlc (update_candle c t)
  unfolding update_candle
  update_candle-IsOhlc c t v =
      let (high, new_high) = max-le o c.high t.last in
      let (low, new_low) = min-le o c.low t.last in
      record {
        low-opening = o.le_trans _ c.low _ low v.low-opening;
        opening-high = o.le_trans _ c.high _ v.opening-high high;
        low-close = new_low;
        close-high = new_high;
        counted = omega arith;
      }

  place_tick-HasOhlc :
      (b : CandleBuilder W) (d : DateTime) (t : PriceTick W)
      → HasOhlc b
      → HasOhlc (place_tick b d t).0
  unfolding place_tick
  place_tick-HasOhlc b d t v = elim (Option-cases b.current) [
    | inl e ↦ rw (e, place_tick) (ground (arith, start_candle-IsOhlc b.tf d t))
    | inr (c, e) ↦
        let valid : IsOhlc c = subst OpenIsOhlc e v.current in
        ground (
          arith,
          start_candle-IsOhlc b.tf d t,
          update_candle-IsOhlc c t valid,
          All-append IsOhlc b.completed (c ∷ []) v.closed (valid, tt),
        )
  ]

  add_tick-HasOhlc :
      (b : CandleBuilder W) (t : PriceTick W) (r : CandleBuilder W × Option (Candle W))
      → HasOhlc b
      → add_tick b t ≡ ok r
      → HasOhlc r.0
  unfolding add_tick
  add_tick-HasOhlc b t r v e =
      let (d, opened, placed) = >>=-eq-ok (candle_open b.tf t.timestamp) _ e in
      ground (arith, place_tick-HasOhlc b d t v)

  -- Whatever ticks arrive at a builder of proper bars, its bars stay proper.
  pub add_ticks-HasOhlc :
      (b : CandleBuilder W) (ticks : List (PriceTick W)) {b' : CandleBuilder W}
      → HasOhlc b
      → add_ticks b ticks ≡ ok b'
      → HasOhlc b'
  unfolding add_ticks
  add_ticks-HasOhlc b [] v e = ground arith
  add_ticks-HasOhlc b (t ∷ ts) v e =
      let (r, first, rest) = >>=-eq-ok (add_tick b t) _ e in
      add_ticks-HasOhlc r.0 ts (add_tick-HasOhlc b t r v first) rest
