-- ===== src/Candles/Chunks.antt =====
-- A stream of ticks cut into chunks at every change of boundary, and what the builder makes of one.
use mathlib.Core.List.{append_assoc}
use cryptotrader.Prelude.{
  ◌∙◌, inr, inl, ◌<◌, Bool-cases, ℕ, ◌≡◌, ◌≢◌, refl, if◌then◌else◌, ◌==◌, none, some, List, [], ◌∷◌,
  ◌++◌, map, foldl, ok, arith, All, length, length-append,
}
use cryptotrader.Float.{Float, max, min}
use cryptotrader.Models.{PriceTick, Candle}
use cryptotrader.Models.Time.{time_beq_iff, DateTime, time_eq}
use cryptotrader.Candles.Boundary.{candle_open-ok, boundary_of}
use cryptotrader.Candles.{
  place_tick, add_ticks, add_tick, CandleBuilder, start_candle, update_candle, candle_open,
}

-- Ticks in a row on one boundary.
pub record Chunk (W : Type 0) : Type 0 where
  pub boundary : DateTime
  pub first : PriceTick W
  pub rest : List (PriceTick W)

module _ {W : Type 0} where
  abbrev pub ticks_of : Chunk W → List (PriceTick W)
  ticks_of k = k.first ∷ k.rest

  abbrev pub all_ticks : List (Chunk W) → List (PriceTick W)
  all_ticks [] = []
  all_ticks (k ∷ ks) = ticks_of k ++ all_ticks ks

  abbrev pub OnBoundary : ℕ → Chunk W → Type 0
  OnBoundary tf k = All (λ t. candle_open tf t.timestamp ≡ ok k.boundary) (ticks_of k)

  -- Neighbours differ in their boundary, so no chunk could have been longer.
  abbrev pub Changes : List (Chunk W) → Type 0
  Changes [] = Unit
  Changes (k ∷ []) = Unit
  Changes (k ∷ j ∷ ks) = (k.boundary ≢ j.boundary) × Changes (j ∷ ks)

  abbrev pub last_or : W → List (PriceTick W) → W
  last_or p [] = p
  last_or p (t ∷ ts) = last_or t.last ts

  -- All the candles of a builder, the open one last.
  abbrev pub all_candles : CandleBuilder W → List (Candle W)
  all_candles b = b.completed ++ elim b.current [ none ↦ [] | some c ↦ c ∷ [] ]

module _ {W : Type 0} ⦃fl : Float W⦄ where
  abbrev pub summary : ℕ → Chunk W → Candle W
  summary tf k = record {
    pair = k.first.pair;
    timeframe = tf;
    opening = k.first.last;
    high = foldl max k.first.last (map (λ t. t.last) k.rest);
    low = foldl min k.first.last (map (λ t. t.last) k.rest);
    close = last_or k.first.last k.rest;
    tick_count = length (ticks_of k);
    timestamp = k.boundary;
  }

  -- The cut that the builder makes.
  abbrev pub extend : Chunk W → PriceTick W → Chunk W
  extend k t = record k { rest = k.rest ++ t ∷ [] }

  abbrev pub begin : ℕ → PriceTick W → Chunk W
  begin tf t = record { boundary = boundary_of tf t.timestamp; first = t; rest = [] }

  unfoldable pub runs : ℕ → Chunk W → List (PriceTick W) → List (Chunk W)
  runs tf k [] = k ∷ []
  runs tf k (t ∷ ts) =
      if k.boundary == boundary_of tf t.timestamp
      then runs tf (extend k t) ts
      else k ∷ runs tf (begin tf t) ts

  last_or-append_one :
      (p : W) (ts : List (PriceTick W)) (t : PriceTick W) → last_or p (ts ++ t ∷ []) ≡ t.last
  last_or-append_one p [] t = refl
  last_or-append_one p (u ∷ ts) t = last_or-append_one u.last ts t

  foldl-map_append_one :
      (f : W → W → W) (a : W) (ts : List (PriceTick W)) (t : PriceTick W)
      → foldl f a (map (λ u. u.last) (ts ++ t ∷ [])) ≡ f (foldl f a (map (λ u. u.last) ts)) t.last
  foldl-map_append_one f a [] t = refl
  foldl-map_append_one f a (u ∷ ts) t = foldl-map_append_one f (f a u.last) ts t

  summary-extend :
      (tf : ℕ) (k : Chunk W) (t : PriceTick W)
      → summary tf (extend k t) ≡ update_candle (summary tf k) t
  unfolding update_candle
  summary-extend tf k t = ground (
    arith,
    foldl-map_append_one max k.first.last k.rest t,
    foldl-map_append_one min k.first.last k.rest t,
    last_or-append_one k.first.last k.rest t,
    length-append k.rest (t ∷ []),
  )

  pub summary-begin :
      (tf : ℕ) (t : PriceTick W)
      → summary tf (begin tf t) ≡ start_candle tf (boundary_of tf t.timestamp) t
  unfolding start_candle
  summary-begin tf t = refl

  -- One tick on a builder whose open candle is the summary of `k`.
  add_tick-same :
      (tf : ℕ) (k : Chunk W) (t : PriceTick W) (cs : List (Candle W))
      → 0 < tf
      → k.boundary ≡ boundary_of tf t.timestamp
      → add_tick (record { tf = tf; current = some (summary tf k); completed = cs }) t
        ≡ ok (record { tf = tf; current = some (summary tf (extend k t)); completed = cs }, none)
  unfolding add_tick place_tick
  add_tick-same tf k t cs h e =
      rw (candle_open-ok tf t.timestamp h, summary-extend tf k t)
        (ground (arith, time_beq_iff k.boundary (boundary_of tf t.timestamp)))

  add_tick-next :
      (tf : ℕ) (k : Chunk W) (t : PriceTick W) (cs : List (Candle W))
      → 0 < tf
      → k.boundary ≢ boundary_of tf t.timestamp
      → add_tick (record { tf = tf; current = some (summary tf k); completed = cs }) t
        ≡ ok (
          record {
            tf = tf;
            current = some (summary tf (begin tf t));
            completed = cs ++ summary tf k ∷ [];
          },
          some (summary tf k),
        )
  unfolding add_tick place_tick
  add_tick-next tf k t cs h e =
      rw (candle_open-ok tf t.timestamp h, summary-begin tf t)
        (ground (arith, time_beq_iff k.boundary (boundary_of tf t.timestamp)))

  pub add_ticks-runs :
      (tf : ℕ) (k : Chunk W) (ts : List (PriceTick W)) (cs : List (Candle W))
      → 0 < tf
      → (b : CandleBuilder W) × (add_ticks
            (record { tf = tf; current = some (summary tf k); completed = cs })
            ts
          ≡ ok b)
        × (all_candles b ≡ cs ++ map (summary tf) (runs tf k ts))
  unfolding add_ticks runs
  add_ticks-runs tf k [] cs h =
      (record { tf = tf; current = some (summary tf k); completed = cs }, refl, refl)
  add_ticks-runs tf k (t ∷ ts) cs h = elim (Bool-cases (k.boundary == boundary_of tf t.timestamp)) [
    | inl same ↦
        let (b, run, out) = add_ticks-runs tf (extend k t) ts cs h in
        (b, rw (add_tick-same tf k t cs h ((time_beq_iff k.boundary _).0 same)) run, rw same out)
    | inr other ↦
        let (b, run, out) = add_ticks-runs tf (begin tf t) ts (cs ++ summary tf k ∷ []) h in
        (
          b,
          rw (add_tick-next tf k t cs h (λ e. ground (arith, time_beq_iff k.boundary _))) run,
          rw other (out ∙ append_assoc cs (summary tf k ∷ []) _),
        )
  ]
