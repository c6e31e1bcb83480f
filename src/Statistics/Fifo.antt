-- ===== src/Statistics/Fifo.antt =====
-- `compute` and `realized_pnl_for_sell` match sells to buys alike.
use cryptotrader.Prelude.{
  ◌∙◌, String, ◌≡◌, refl, inl, inr, Option, none, some, List, [], ◌∷◌, ◌++◌, foldl, arith, filter,
  if◌then◌else◌, ◌==◌, string_eq, Bool-cases, suc,
}
use mathlib.Core.List.{foldl-append}
use cryptotrader.Prelude.Dict.{get_or, insert, get_or-insert}
use cryptotrader.Float.{Float, lit, le}
use cryptotrader.Models.{Trade, Side}
use cryptotrader.Statistics.{
  Tally, empty_tally, count_trade, close_oldest, book, tally, open_step, open_after, pnl_against,
}

module _ {W : Type 0} ⦃fl : Float W⦄ where
  abbrev open_for : String → Tally W → List (Trade W)
  open_for p s = get_or p [] s.open_buys

  book-open_buys : (s : Tally W) (x : W) → (book s x).open_buys ≡ s.open_buys
  unfolding book
  book-open_buys s x = ground arith

  close_oldest-open_buys :
      (p : String) (s : Tally W) (t : Trade W) (os : List (Trade W))
      → open_for t.pair s ≡ os
      → open_for p (close_oldest s t os)
        ≡ (if t.pair == p then elim os [ [] ↦ [] | _ ∷ rest ↦ rest ] else open_for p s)
  unfolding close_oldest
  close_oldest-open_buys p s t [] e = ground (arith, string_eq.beq_iff t.pair p)
  close_oldest-open_buys p s t (o ∷ rest) e =
      rw (book-open_buys (record s { open_buys = insert t.pair rest s.open_buys }) _)
        (get_or-insert t.pair p rest [] s.open_buys)

  count_trade-open_buys :
      (p : String) (s : Tally W) (t : Trade W)
      → open_for p (count_trade s t)
        ≡ (if t.pair == p then open_step (open_for p s) t else open_for p s)
  unfolding count_trade open_step
  count_trade-open_buys p s t = ground (
    arith,
    string_eq.beq_iff t.pair p,
    get_or-insert t.pair p (open_for t.pair s ++ t ∷ []) [] s.open_buys,
    close_oldest-open_buys p (record s { sells = suc s.sells }) t (open_for t.pair s) refl,
  )

  abbrev pub of_pair : String → List (Trade W) → List (Trade W)
  of_pair p = filter λ t. t.pair == p

  foldl-open_buys :
      (p : String) (ts : List (Trade W)) (s : Tally W)
      → open_for p (foldl count_trade s ts) ≡ foldl open_step (open_for p s) (of_pair p ts)
  foldl-open_buys p [] s = refl
  foldl-open_buys p (t ∷ ts) s = elim (Bool-cases (t.pair == p)) [
    | inl same ↦ rw (foldl-open_buys p ts (count_trade s t), count_trade-open_buys p s t, same)
    | inr other ↦ rw (foldl-open_buys p ts (count_trade s t), count_trade-open_buys p s t, other)
  ]

  -- The round trips after one more realized figure.
  abbrev pub with_pnl : Tally W → Option W → List W × List W
  with_pnl s none = (s.gains, s.losses)
  with_pnl s (some x) =
      if le (lit 0) x then (s.gains ++ x ∷ [], s.losses) else (s.gains, s.losses ++ x ∷ [])

  abbrev booked : Tally W → List W × List W
  booked s = (s.gains, s.losses)

  close_oldest-booked :
      (s : Tally W) (t : Trade W) (os : List (Trade W))
      → booked (close_oldest s t os) ≡ with_pnl s (pnl_against os t.price t.quantity)
  unfolding close_oldest book pnl_against
  close_oldest-booked s t [] = refl
  close_oldest-booked s t (o ∷ os) = ground arith

  count_trade-booked :
      (s : Tally W) (t : Trade W)
      → t.side ≡ Side.sell
      → booked (count_trade s t) ≡ with_pnl s (pnl_against (open_for t.pair s) t.price t.quantity)
  unfolding count_trade
  count_trade-booked s t sold =
      rw (sold, count_trade)
        (close_oldest-booked (record s { sells = suc s.sells }) t (open_for t.pair s)
          ∙ same_lists _)
    where
      same_lists : (o : Option W) → with_pnl (record s { sells = suc s.sells }) o ≡ with_pnl s o
      same_lists none = refl
      same_lists (some x) = refl

  pub tally-realized_pnl :
      (ts : List (Trade W)) (t : Trade W)
      → t.side ≡ Side.sell
      → let s = tally (ts ++ t ∷ []) in
        (s.gains, s.losses)
        ≡ with_pnl (tally ts) (pnl_against (open_after (of_pair t.pair ts)) t.price t.quantity)
  unfolding tally open_after
  tally-realized_pnl ts t sold =
      rw (foldl-append count_trade empty_tally ts (t ∷ []), ← foldl-open_buys t.pair ts empty_tally)
        (count_trade-booked (tally ts) t sold)
