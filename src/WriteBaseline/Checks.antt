-- ===== src/WriteBaseline/Checks.antt =====
-- The daily check on the state that a baseline was just written from.
use cryptotrader.Prelude.{
  String, ◌≡◌, refl, sym, ap, ◌∙◌, subst, true, false, Bool, not, none, some, List, [], ◌∷◌, ◌++◌,
  is_some, map, filter, All, arith, string_eq, if◌then◌else◌,
}
use mathlib.Core.List.{append_assoc}
use cryptotrader.Prelude.Dict.{Dict, contains, get_or}
use cryptotrader.Float.{Float, ◌+◌, ◌-◌, lit, le, abs}
use cryptotrader.Float.Laws.{IsOrdered, ◌≼◌}
use cryptotrader.Database.{Database}
use cryptotrader.Holdings.{ledger_holdings, ledger_low_water_by_pair, ordered_rows}
use cryptotrader.Holdings.Low.{low_water-le}
use cryptotrader.Reconcile.{
  AssetReconciliation, divergence, is_ok, row_for, assets_of, reconcile, member,
}
use cryptotrader.DailyCheck.{
  judge, check_ledger, check_ledger_vs_exchange, prod_trades, qty_epsilon, adjustment_of,
}
use cryptotrader.DailyCheck.Report.{Inputs, ExchangeState, Baseline, is_empty}
use cryptotrader.DailyCheck.Ledger.{check_ledger_iff, not-lt}
use cryptotrader.WriteBaseline.{Saved, divergences, rounded, save_baseline, write_baseline}
use cryptotrader.WriteBaseline.Quiet.{IsQuiet, adjustment_of-zero}
use cryptotrader.WriteBaseline.Settled.{
  All-of_member, saved, lookup-saved, row-is_ok, listed-contains, get_or-rounded,
}

not_empty : {V : Type 0} (a : String) (d : Dict String V) → contains a d ≡ true → is_empty d ≡ false
not_empty a [] h = cc
not_empty a (p ∷ d) h = refl

module _ {W : Type 0} ⦃fl : Float W⦄ where
  none_bad :
      (tolerance : W) (rows : List (AssetReconciliation W))
      → All (λ q. is_ok tolerance q ≡ true) rows
      → is_empty (filter (λ q. not (is_ok tolerance q)) rows) ≡ true
  none_bad tolerance [] h = refl
  none_bad tolerance (r ∷ rows) h = rw h.0 (none_bad tolerance rows h.1)

  judge_passes :
      (tolerance : W) (has : Bool) (rows : List (AssetReconciliation W))
      → All (λ q. (is_ok tolerance q ≡ true) × (has ≡ true)) rows
      → All (λ q. is_ok tolerance q ≡ true) rows
      → (judge tolerance has rows).passed ≡ true
  judge_passes tolerance has [] h k = refl
  judge_passes tolerance has (r ∷ rows) h k = rw h.0.1 (none_bad tolerance (r ∷ rows) k)

  module _ (round12 : W → W) where
    floor_passes :
        (o : IsOrdered W) (db : Database W)
        → round12 (lit 0) ≡ lit 0
        → ((x : W) → round12 x - qty_epsilon ≼ x)
        → (check_ledger
            (prod_trades db)
            (rounded round12 (ledger_low_water_by_pair db "production"))).passed
          ≡ true
    unfolding prod_trades
    floor_passes o db z near =
        let low = ledger_low_water_by_pair db "production" in
        (check_ledger_iff (rounded round12 low) (ordered_rows db "production")).1 λ us vs t e.
          not-lt o _ _ (
            o.le_trans _ _ _
              (subst (λ x. x - qty_epsilon ≼ get_or t.pair (lit 0) low)
                (sym (get_or-rounded round12 t.pair low z)) (near (get_or t.pair (lit 0) low)))
              (low_water-le o t.pair db "production" (us ++ t ∷ []) vs
                (e ∙ sym (append_assoc us (t ∷ []) vs))).0)

    written_lem :
        (dry_run : Bool) (attribution : Dict String String) (recorded : W) (db : Database W)
        (balances : Dict String W) (s : Saved W)
        → write_baseline round12 dry_run attribution recorded db balances ≡ (0, some s)
        → s
          ≡ save_baseline round12
              (reconcile db balances [] "production" [])
              attribution
              recorded
              (ledger_low_water_by_pair db "production")
    unfolding write_baseline
    written_lem dry_run attribution recorded db balances s h = ground arith

    -- Every row of the check has its figure in the file.
    listed-is_ok :
        (ledger balances adjustment : Dict String W) (tolerance : W) (a : String)
        → ((x : W) → le (abs (x - (round12 x + lit 0))) tolerance ≡ true)
        → get_or a (lit 0) adjustment ≡ lit 0
        → let figures = saved round12 ledger balances adjustment tolerance in
          member a (assets_of ledger balances figures) ≡ true
          → (is_ok tolerance (row_for ledger balances figures adjustment a) ≡ true)
            × (not (is_empty figures) ≡ true)
    listed-is_ok ledger balances adjustment tolerance a near zero_of m =
        let figures = saved round12 ledger balances adjustment tolerance in
        let has = listed-contains round12 ledger balances adjustment tolerance a m in
        let found = ap is_some (
          lookup-saved round12 ledger balances adjustment tolerance a
          ∙ ap
              (λ b.
                if b then some (round12 (divergence (row_for ledger balances [] [] a))) else none)
              has) in
        (
          row-is_ok round12 ledger balances adjustment tolerance a near zero_of has,
          ap not (not_empty a figures found),
        )

    exchange_passes :
        (i : Inputs W) (state : ExchangeState W)
        → i.baseline.divergence
          ≡ divergences round12 (reconcile i.db state.balances [] "production" [])
        → ((x : W) → le (abs (x - (round12 x + lit 0))) i.tolerance ≡ true)
        → ◌≡◌ {A = W} (lit 0 + lit 0) (lit 0)
        → IsQuiet i.baseline.recorded state
        → (check_ledger_vs_exchange i (some state)).passed ≡ true
    unfolding check_ledger_vs_exchange reconcile
    exchange_passes i state e near z quiet =
        let ledger = ledger_holdings i.db "production" in
        let adjustment = adjustment_of i.db state i.baseline in
        let figures = saved round12 ledger state.balances adjustment i.tolerance in
        let row = row_for ledger state.balances figures adjustment in
        let listed = λ (a : String) (m : member a (assets_of ledger state.balances figures) ≡ true).
          listed-is_ok ledger state.balances adjustment i.tolerance a near
            (adjustment_of-zero i.db state i.baseline a z quiet) m in
        subst
          (λ d.
            (judge i.tolerance (not (is_empty d))
              (reconcile i.db state.balances d "production" adjustment)).passed
            ≡ true)
          (sym e)
          (judge_passes i.tolerance (not (is_empty figures))
            (map row (assets_of ledger state.balances figures))
            (All-of_member (λ q. (is_ok i.tolerance q ≡ true) × (not (is_empty figures) ≡ true)) row
              (assets_of ledger state.balances figures) listed)
            (All-of_member (λ q. is_ok i.tolerance q ≡ true) row
              (assets_of ledger state.balances figures) (λ a m. (listed a m).0)))

-- Where `round(x, 12)` stays within the tolerances of the two checks, zero is exact and quantities
-- are ordered: if a baseline was written from the log and the balances, then a daily check on the
-- same log and balances, with nothing later than the baseline on the exchange, passes its ledger
-- check and its exchange check, whatever over-sells and divergences there are.
pub write_baseline_settles :
    {W : Type 0} ⦃fl : Float W⦄ (o : IsOrdered W) (round12 : W → W) (dry_run : Bool)
    (attribution : Dict String String) (recorded : W) (i : Inputs W) (state : ExchangeState W)
    (s : Saved W)
    → round12 (lit 0) ≡ lit 0
    → ((x : W) → round12 x - qty_epsilon ≼ x)
    → ((x : W) → le (abs (x - (round12 x + lit 0))) i.tolerance ≡ true)
    → ◌≡◌ {A = W} (lit 0 + lit 0) (lit 0)
    → write_baseline round12 dry_run attribution recorded i.db state.balances ≡ (0, some s)
    → i.baseline ≡ s.baseline
    → IsQuiet recorded state
    → ((check_ledger (prod_trades i.db) i.baseline.ledger_floor).passed ≡ true)
      × ((check_ledger_vs_exchange i (some state)).passed ≡ true)
unfolding save_baseline
write_baseline_settles o round12 dry_run attribution recorded i state s z near_floor near zero_add h
      reads quiet =
    let e =
      reads
      ∙ ap (λ (r : Saved _). r.baseline)
          (written_lem round12 dry_run attribution recorded i.db state.balances s h) in
    (
      subst (λ d. (check_ledger (prod_trades i.db) d).passed ≡ true)
          (sym (ap (λ (b : Baseline _). b.ledger_floor) e))
          (floor_passes round12 o i.db z near_floor),
      exchange_passes round12 i state (ap (λ (b : Baseline _). b.divergence) e) near zero_add
          (subst (λ r. IsQuiet r state) (sym (ap (λ (b : Baseline _). b.recorded) e)) quiet),
    )
