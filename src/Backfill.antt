-- ===== src/Backfill.antt =====
-- scripts/backfill_pnl.py: the realized figures of sells that were recorded without one. The id of a
-- row is its position in the table; the printed table is not modelled.
pub mod Order
pub mod Figures
pub mod Apply
mod Tests
use Prim.Native.Nat.{◌+◌ as plus}
use cryptotrader.Prelude.{
  ℕ, zero, suc, String, Bool, true, false, if◌then◌else◌, Option, none, some, List, [], ◌∷◌, ◌++◌,
  foldl, filter, is_some, string_eq, enumerate,
}
use cryptotrader.Prelude.Dict.{Dict, get_or, insert}
use cryptotrader.Float.{Float, ◌-◌, ◌*◌}
use cryptotrader.Models.{Trade, Side}
use cryptotrader.Database.{Database, Filters, no_filters, trade_matches, order_by}

abbrev pub in_mode : String → Filters
in_mode mode = record no_filters { mode = some mode }

module _ (W : Type 0) where
  -- A tuple of `rows`.
  pub record Closed : Type 0 where
    pub id : ℕ
    pub pnl : W
    pub pair : String
    pub entry : W
    pub exit : W
    pub qty : W

  -- The variables of the loop.
  pub record Progress : Type 0 where
    pub open_buys : Dict String (List (Trade W))
    pub rows : List Closed

module _ {W : Type 0} where
  abbrev pub new_progress : Progress W
  new_progress = record { open_buys = []; rows = [] }

  -- The trades of the query with their ids.
  unfoldable pub numbered_rows : String → List (Trade W) → List (ℕ × Trade W)
  numbered_rows mode trades =
      order_by (λ r. r.1.timestamp)
        (filter (λ r. trade_matches (in_mode mode) r.1) (enumerate 0 trades))

module _ {W : Type 0} ⦃fl : Float W⦄ where
  abbrev pub closed_row : ℕ → Trade W → Trade W → Closed W
  closed_row id t bought = record {
    id = id;
    pnl = (t.price - bought.price) * t.quantity;
    pair = t.pair;
    entry = bought.price;
    exit = t.price;
    qty = t.quantity;
  }

  unfoldable pub close_first : Progress W → ℕ × Trade W → List (Trade W) → Progress W
  close_first s r [] = s
  close_first s (id, t) (bought ∷ rest) = record {
    open_buys = insert t.pair rest s.open_buys;
    rows = s.rows ++ closed_row id t bought ∷ [];
  }

  unfoldable pub match_trade : Progress W → ℕ × Trade W → Progress W
  match_trade s (id, t) = elim t.side [
    | Side.buy ↦ record s {
      open_buys = insert t.pair (get_or t.pair [] s.open_buys ++ t ∷ []) s.open_buys;
    }
    | Side.sell ↦ close_first s (id, t) (get_or t.pair [] s.open_buys)
  ]

  unfoldable pub compute_backfill : List (Trade W) → String → List (Closed W)
  compute_backfill trades mode = (foldl match_trade new_progress (numbered_rows mode trades)).rows

module _ {W : Type 0} where
  -- `UPDATE trades SET pnl = ? WHERE id = ? AND pnl IS NULL`, with its `rowcount`.
  unfoldable pub set_pnl : ℕ → W → List (Trade W) → List (Trade W) × ℕ
  set_pnl id x [] = ([], 0)
  set_pnl zero x (t ∷ rest) =
      if is_some t.pnl then (t ∷ rest, 0) else (record t { pnl = some x } ∷ rest, 1)
  set_pnl (suc id) x (t ∷ rest) = let (later, n) = set_pnl id x rest in (t ∷ later, n)

  unfoldable pub write_rows : List (Closed W) → List (Trade W) → List (Trade W) × ℕ
  write_rows [] trades = (trades, 0)
  write_rows (r ∷ rest) trades =
      let (updated, n) = set_pnl r.id r.pnl trades in
      let (final, written) = write_rows rest updated in (final, plus n written)

module _ {W : Type 0} ⦃fl : Float W⦄ where
  -- `main`: the table afterwards, and the rows written. Without --apply nothing is.
  unfoldable pub backfill : Bool → String → List (Trade W) → List (Trade W) × ℕ
  backfill apply mode trades =
      if apply then write_rows (compute_backfill trades mode) trades else (trades, 0)
