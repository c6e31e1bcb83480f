-- ===== src/Statistics/Counts.antt =====
-- What `compute` counts.
use Prim.Native.Nat.{◌+◌}
use cryptotrader.Prelude.{
  ℕ, suc, String, ◌≤◌, ◌≡◌, refl, List, [], ◌∷◌, ◌++◌, foldl, length, length-append, arith,
  string_eq,
}
use cryptotrader.Prelude.Dict.{Dict, get_or, insert}
use cryptotrader.Float.{Float}
use cryptotrader.Models.{Trade}
use cryptotrader.Statistics.{
  Tally, empty_tally, count_trade, close_oldest, book, tally, stats_of, result_of,
}

module _ {W : Type 0} where
  abbrev total_open : Dict String (List (Trade W)) → ℕ
  total_open [] = 0
  total_open ((_, ts) ∷ d) = length ts + total_open d

  total_open-insert :
      (p : String) (ts : List (Trade W)) (d : Dict String (List (Trade W)))
      → total_open (insert p ts d) + length (get_or p [] d) ≡ total_open d + length ts
  total_open-insert p ts [] = omega arith
  total_open-insert p ts ((q, us) ∷ d) = ground (arith, total_open-insert p ts d)

module _ {W : Type 0} ⦃fl : Float W⦄ where
  -- Each buy is open or closed, and each round trip was closed by a sell.
  record Counted (s : Tally W) : Type 0 where
    matched : total_open s.open_buys + length s.gains + length s.losses ≡ s.buys
    closed : length s.gains + length s.losses ≤ s.sells

  close_oldest-Counted :
      (s : Tally W) (t : Trade W) (os : List (Trade W))
      → get_or t.pair [] s.open_buys ≡ os
      → Counted s
      → Counted (close_oldest (record s { sells = suc s.sells }) t os)
  unfolding close_oldest book
  close_oldest-Counted s t [] e v = ground arith
  close_oldest-Counted s t (o ∷ os) e v =
      let x = fl.mul (fl.sub t.price o.price) t.quantity in
      ground (
        arith,
        total_open-insert t.pair os s.open_buys,
        length-append s.gains (x ∷ []),
        length-append s.losses (x ∷ []),
      )

  count_trade-Counted : (s : Tally W) (t : Trade W) → Counted s → Counted (count_trade s t)
  unfolding count_trade
  count_trade-Counted s t v = ground (
    arith,
    close_oldest-Counted s t (get_or t.pair [] s.open_buys) refl v,
    total_open-insert t.pair (get_or t.pair [] s.open_buys ++ t ∷ []) s.open_buys,
    length-append (get_or t.pair [] s.open_buys) (t ∷ []),
  )

  foldl-Counted : (ts : List (Trade W)) (s : Tally W) → Counted s → Counted (foldl count_trade s ts)
  foldl-Counted [] s v = v
  foldl-Counted (t ∷ ts) s v = foldl-Counted ts (count_trade s t) (count_trade-Counted s t v)

  count_trade-total :
      (s : Tally W) (t : Trade W)
      → (count_trade s t).buys + (count_trade s t).sells ≡ suc (s.buys + s.sells)
  unfolding count_trade close_oldest book
  count_trade-total s t = ground arith

  foldl-total :
      (ts : List (Trade W)) (s : Tally W)
      → (foldl count_trade s ts).buys + (foldl count_trade s ts).sells
        ≡ s.buys + s.sells + length ts
  foldl-total [] s = omega arith
  foldl-total (t ∷ ts) s = omega (arith, foldl-total ts (count_trade s t), count_trade-total s t)

  -- `compute` counts every trade once as a buy or a sell, and completes no more round trips than
  -- there are buys, nor than there are sells.
  pub stats_of_counts :
      (ts : List (Trade W))
      → let s = stats_of ts in
        (s.buys + s.sells ≡ length ts) × (s.total_trades ≤ s.buys) × (s.total_trades ≤ s.sells)
  unfolding stats_of result_of tally
  stats_of_counts [] = omega arith
  stats_of_counts (t ∷ ts) =
      let c = foldl-Counted (t ∷ ts) empty_tally (omega arith) in
      let n = foldl-total (t ∷ ts) empty_tally in omega (arith, c.matched, c.closed, n)
