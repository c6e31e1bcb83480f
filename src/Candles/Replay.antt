-- ===== src/Candles/Replay.antt =====
-- The candles of a stream of ticks, described without the builder: the stream is cut into chunks
-- at every change of boundary, and each chunk becomes one candle.
use mathlib.Core.List.{append_assoc}
use cryptotrader.Prelude.{
  sym, ap, ◌∙◌, inr, inl, ◌<◌, Bool-cases, ℕ, ◌≡◌, ◌≢◌, refl, ◌==◌, List, [], ◌∷◌, ◌++◌, map, ok,
  arith, All, All-append,
}
use cryptotrader.Float.{Float}
use cryptotrader.Models.{PriceTick, Candle}
use cryptotrader.Models.Time.{time_beq_iff, time_eq}
use cryptotrader.Candles.Boundary.{candle_open-ok, boundary_of}
use cryptotrader.Candles.{new_builder, place_tick, add_ticks, add_tick, CandleBuilder}
use cryptotrader.Candles.Chunks.{
  Chunk, ticks_of, all_ticks, OnBoundary, Changes, all_candles, summary, extend, begin, runs,
  summary-begin, add_ticks-runs,
}

module _ {W : Type 0} ⦃fl : Float W⦄ where
  -- The cut is what `Replays` asks of it.
  runs-ticks :
      (tf : ℕ) (k : Chunk W) (ts : List (PriceTick W)) → all_ticks (runs tf k ts) ≡ ticks_of k ++ ts
  unfolding runs
  runs-ticks tf k [] = refl
  runs-ticks tf k (t ∷ ts) = elim (Bool-cases (k.boundary == boundary_of tf t.timestamp)) [
    | inl same ↦ rw (same, runs-ticks tf (extend k t) ts) (append_assoc (ticks_of k) (t ∷ []) ts)
    | inr other ↦ rw (other, runs-ticks tf (begin tf t) ts)
  ]

  runs-OnBoundary :
      (tf : ℕ) (k : Chunk W) (ts : List (PriceTick W))
      → 0 < tf
      → OnBoundary tf k
      → All (OnBoundary tf) (runs tf k ts)
  unfolding runs
  runs-OnBoundary tf k [] h v = (v, tt)
  runs-OnBoundary tf k (t ∷ ts) h v = elim (Bool-cases (k.boundary == boundary_of tf t.timestamp)) [
    | inl same ↦ rw same (
        runs-OnBoundary tf (extend k t) ts h (
          All-append _ (ticks_of k) (t ∷ []) v (
            candle_open-ok tf t.timestamp h ∙ ap ok (sym ((time_beq_iff k.boundary _).0 same)),
            tt,
          )))
    | inr other ↦
        rw other (v, runs-OnBoundary tf (begin tf t) ts h (candle_open-ok tf t.timestamp h, tt))
  ]

  runs-Changes :
      (tf : ℕ) (j k : Chunk W) (ts : List (PriceTick W))
      → j.boundary ≢ k.boundary
      → Changes (j ∷ runs tf k ts)
  unfolding runs
  runs-Changes tf j k [] h = (h, tt)
  runs-Changes tf j k (t ∷ ts) h = elim (Bool-cases (k.boundary == boundary_of tf t.timestamp)) [
    | inl same ↦ rw same (runs-Changes tf j (extend k t) ts h)
    | inr other ↦
        rw other
          (h, runs-Changes tf k (begin tf t) ts (λ e. ground (arith, time_beq_iff k.boundary _)))
  ]

  runs-Changes_start : (tf : ℕ) (k : Chunk W) (ts : List (PriceTick W)) → Changes (runs tf k ts)
  unfolding runs
  runs-Changes_start tf k [] = tt
  runs-Changes_start tf k (t ∷ ts) = elim (Bool-cases (k.boundary == boundary_of tf t.timestamp)) [
    | inl same ↦ rw same (runs-Changes_start tf (extend k t) ts)
    | inr other ↦
        rw other
          (runs-Changes tf k (begin tf t) ts (λ e. ground (arith, time_beq_iff k.boundary _)))
  ]

  -- The candles `cs` are those of the ticks: cut at each change of boundary, one candle a chunk.
  pub record Replays (tf : ℕ) (ticks : List (PriceTick W)) (cs : List (Candle W)) : Type 0 where
    pub chunks : List (Chunk W)
    pub joined : all_ticks chunks ≡ ticks
    pub uniform : All (OnBoundary tf) chunks
    pub maximal : Changes chunks
    pub summarised : cs ≡ map (summary tf) chunks

  -- With a positive timeframe a stream of ticks is always accepted, and the candles of a new
  -- builder are those of the stream.
  pub add_ticks-Replays :
      (tf : ℕ) (ticks : List (PriceTick W))
      → 0 < tf
      → (b : CandleBuilder W) × (add_ticks (new_builder tf) ticks ≡ ok b)
        × Replays tf ticks (all_candles b)
  unfolding add_ticks add_tick place_tick
  add_ticks-Replays tf [] h = (
    new_builder tf,
    refl,
    record { chunks = []; joined = refl; uniform = tt; maximal = tt; summarised = refl },
  )
  add_ticks-Replays tf (t ∷ ts) h =
      let k = begin tf t in
      let (b, run, out) = add_ticks-runs tf k ts [] h in
      (
        b,
        rw (candle_open-ok tf t.timestamp h) (rw (summary-begin tf t) at run),
        record {
          chunks = runs tf k ts;
          joined = runs-ticks tf k ts;
          uniform = runs-OnBoundary tf k ts h (candle_open-ok tf t.timestamp h, tt);
          maximal = runs-Changes_start tf k ts;
          summarised = out;
        },
      )
