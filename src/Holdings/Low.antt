-- ===== src/Holdings/Low.antt =====
-- `ledger_low_water_by_pair` of cryptotrader/reconcile.py.
use cryptotrader.Prelude.{
  String, ◌≡◌, sym, ap, ◌∙◌, subst, inl, inr, ◌==◌, string_eq, if◌then◌else◌, Bool-cases, List, [],
  ◌∷◌, ◌++◌, foldl,
}
use cryptotrader.Prelude.Dict.{get_or, get_or-insert}
use cryptotrader.Float.{Float, lit, min, ◌+◌}
use cryptotrader.Float.Laws.{IsOrdered, ◌≼◌}
use mathlib.Core.List.{foldl-append}
use cryptotrader.Float.Order.{min-le}
use cryptotrader.Models.{Trade}
use cryptotrader.Database.{Database}
use cryptotrader.Holdings.{LowWater, low_step, change, ordered_rows, ledger_low_water_by_pair}

module _ {W : Type 0} ⦃fl : Float W⦄ where
  abbrev pub no_rows : LowWater W
  no_rows = record { running = []; low = [] }

  abbrev low_of : String → LowWater W → W
  low_of p s = get_or p (lit 0) s.low

  abbrev pub running_of : String → LowWater W → W
  running_of p s = get_or p (lit 0) s.running

  low_of-low_step :
      (p : String) (s : LowWater W) (t : Trade W)
      → low_of p (low_step s t) ≡ (
          if t.pair == p
          then min (low_of t.pair s) (running_of t.pair s + change t)
          else low_of p s)
  unfolding low_step
  low_of-low_step p s t = get_or-insert t.pair p _ (lit 0) s.low

  pub running_of-low_step :
      (p : String) (s : LowWater W) (t : Trade W)
      → running_of p (low_step s t)
        ≡ (if t.pair == p then running_of t.pair s + change t else running_of p s)
  unfolding low_step
  running_of-low_step p s t = get_or-insert t.pair p _ (lit 0) s.running

  module _ (o : IsOrdered W) (p : String) where
    -- One row lowers the mark or leaves it, and keeps it at or under the running net.
    low_step-le :
        (s : LowWater W) (t : Trade W)
        → low_of p s ≼ running_of p s
        → (low_of p (low_step s t) ≼ low_of p s)
          × (low_of p (low_step s t) ≼ running_of p (low_step s t))
    low_step-le s t v = elim (Bool-cases (t.pair == p)) [
      | inl same ↦
          let is_p = (string_eq.beq_iff t.pair p).0 same in
          let (old, new) = min-le o (low_of t.pair s) (running_of t.pair s + change t) in
          rw (low_of-low_step p s t, running_of-low_step p s t, same)
            (
              subst (λ q. min (low_of t.pair s) (running_of t.pair s + change t) ≼ low_of q s) is_p
                  old,
              new,
            )
      | inr other ↦
          rw (low_of-low_step p s t, running_of-low_step p s t, other) (o.le_refl (low_of p s), v)
    ]

    foldl-low-le :
        (ts : List (Trade W)) (s : LowWater W)
        → low_of p s ≼ running_of p s
        → (low_of p (foldl low_step s ts) ≼ low_of p s)
          × (low_of p (foldl low_step s ts) ≼ running_of p (foldl low_step s ts))
    foldl-low-le [] s v = (o.le_refl (low_of p s), v)
    foldl-low-le (t ∷ ts) s v =
        let (down, under) = low_step-le s t v in
        let (more, last) = foldl-low-le ts (low_step s t) under in
        (o.le_trans _ (low_of p (low_step s t)) _ more down, last)

    -- Under an order on quantities, the mark of a pair is at or under the running net of the pair
    -- after every part of the log that begins with its oldest row, and at or under zero.
    pub low_water-le :
        (db : Database W) (mode : String) (us vs : List (Trade W))
        → ordered_rows db mode ≡ us ++ vs
        → let mark = get_or p (lit 0) (ledger_low_water_by_pair db mode) in
          (mark ≼ running_of p (foldl low_step no_rows us)) × (mark ≼ lit 0)
    unfolding ledger_low_water_by_pair
    low_water-le db mode us vs e =
        let (floor, first) = foldl-low-le us no_rows (o.le_refl (lit 0)) in
        let (down, _) = foldl-low-le vs (foldl low_step no_rows us) first in
        let same =
          ap (λ rows. low_of p (foldl low_step no_rows rows)) e
          ∙ ap (low_of p) (foldl-append low_step no_rows us vs) in
        subst (λ x. (x ≼ running_of p (foldl low_step no_rows us)) × (x ≼ lit 0)) (sym same)
          (
            o.le_trans _ (low_of p (foldl low_step no_rows us)) _ down first,
            o.le_trans _ (low_of p (foldl low_step no_rows us)) _ down floor,
          )
