-- ===== src/Backfill/Figures.antt =====
-- The figures of the backfill against those of `compute` over the same trades.
use cryptotrader.Prelude.{
  ℕ, suc, String, ◌≡◌, refl, subst, ap, Bool, not, Bool-cases, inl, inr, if◌then◌else◌, List, [],
  ◌∷◌, ◌++◌, map, filter, foldl, filter-append, arith, string_eq,
}
use cryptotrader.Prelude.Dict.{get_or, insert}
use mathlib.Core.List.{append-nil, map-append}
use cryptotrader.Float.{Float, ◌-◌, ◌*◌, lit, le}
use cryptotrader.Models.{Trade, side_cases}
use cryptotrader.Database.{Database, query_trades}
use cryptotrader.Statistics.{Tally, empty_tally, tally, count_trade, close_oldest, book}
use cryptotrader.Backfill.{
  Closed, Progress, new_progress, closed_row, in_mode, numbered_rows, match_trade, close_first,
  compute_backfill,
}
use cryptotrader.Backfill.Order.{map-numbered_rows}

module _ {W : Type 0} ⦃fl : Float W⦄ where
  abbrev pub pnls : List (Closed W) → List W
  pnls = map λ r. r.pnl

  abbrev pub won : List W → List W
  won = filter λ x. le (lit 0) x

  abbrev pub lost : List W → List W
  lost = filter λ x. not (le (lit 0) x)

  -- The loop of the backfill beside that of `compute`.
  record Agrees (s : Progress W) (c : Tally W) : Type 0 where
    same_buys : s.open_buys ≡ c.open_buys
    gains : c.gains ≡ won (pnls s.rows)
    losses : c.losses ≡ lost (pnls s.rows)

  pnls-one :
      (p : W → Bool) (rows : List (Closed W)) (r : Closed W)
      → filter p (pnls (rows ++ r ∷ []))
        ≡ (if p r.pnl then filter p (pnls rows) ++ r.pnl ∷ [] else filter p (pnls rows))
  pnls-one p rows r =
      rw (map-append, filter-append) (ground (arith, append-nil (filter p (pnls rows))))

  close_first-Agrees :
      (s : Progress W) (c : Tally W) (id : ℕ) (t : Trade W) (buys : List (Trade W))
      → Agrees s c
      → Agrees (close_first s (id, t) buys) (close_oldest c t buys)
  unfolding close_first close_oldest book
  close_first-Agrees s c id t [] h = h
  close_first-Agrees s c id t (bought ∷ rest) h =
      let x = (t.price - bought.price) * t.quantity in
      let c' = record c { open_buys = insert t.pair rest c.open_buys } in
      let r = closed_row id t bought in
      elim (Bool-cases (le (lit 0) x)) [
        | inl e ↦ record {
          same_buys = ground (arith, h.same_buys);
          gains = ground (arith, pnls-one (λ y. le (lit 0) y) s.rows r);
          losses = ground (arith, pnls-one (λ y. not (le (lit 0) y)) s.rows r);
        }
        | inr e ↦ record {
          same_buys = ground (arith, h.same_buys);
          gains = ground (arith, pnls-one (λ y. le (lit 0) y) s.rows r);
          losses = ground (arith, pnls-one (λ y. not (le (lit 0) y)) s.rows r);
        }
      ]

  match_trade-Agrees :
      (s : Progress W) (c : Tally W) (r : ℕ × Trade W)
      → Agrees s c
      → Agrees (match_trade s r) (count_trade c r.1)
  unfolding match_trade count_trade
  match_trade-Agrees s c (id, t) h = elim (side_cases t.side) [
    | inl e ↦
        rw (e, match_trade, count_trade)
          (record {
            same_buys = ap (λ o. insert t.pair (get_or t.pair [] o ++ t ∷ []) o) h.same_buys;
            gains = h.gains;
            losses = h.losses;
          })
    | inr e ↦
        rw (e, match_trade, count_trade)
          (let c' = record c { sells = suc c.sells } in
            subst
              (λ o.
                Agrees (close_first s (id, t) (get_or t.pair [] s.open_buys))
                  (close_oldest c' t (get_or t.pair [] o)))
              h.same_buys
              (close_first-Agrees s c' id t (get_or t.pair [] s.open_buys)
                (record { same_buys = h.same_buys; gains = h.gains; losses = h.losses })))
  ]

  foldl-Agrees :
      (rows : List (ℕ × Trade W)) (s : Progress W) (c : Tally W)
      → Agrees s c
      → Agrees (foldl match_trade s rows) (foldl count_trade c (map (λ r. r.1) rows))
  foldl-Agrees [] s c h = h
  foldl-Agrees (r ∷ rows) s c h =
      foldl-Agrees rows (match_trade s r) (count_trade c r.1) (match_trade-Agrees s c r h)

-- Over any log and mode, the figures that the backfill computes are those that `compute` books for
-- the trades of the mode: in their order, the ones that are not negative are its gains, and the
-- others are its losses.
pub compute_backfill-tally :
    {W : Type 0} ⦃fl : Float W⦄ (db : Database W) (mode : String)
    → let s = tally (query_trades db (in_mode mode)) in
      let figures = pnls (compute_backfill db.trades mode) in
      (s.gains ≡ won figures) × (s.losses ≡ lost figures)
unfolding tally compute_backfill
compute_backfill-tally db mode =
    let agrees =
      foldl-Agrees (numbered_rows mode db.trades) new_progress empty_tally
        (record { same_buys = refl; gains = refl; losses = refl }) in
    rw (← map-numbered_rows db mode) (agrees.gains, agrees.losses)
