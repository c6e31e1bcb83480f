-- ===== src/Reconcile/Listed.antt =====
-- Which assets `reconcile` reports.
use cryptotrader.Prelude.{
  String, ◌≡◌, refl, ap, ◌∙◌, Bool, Bool-cases, inl, inr, ◌==◌, string_eq, if◌then◌else◌, Option,
  none, some, List, [], ◌∷◌, arith, ◌||◌, ◌&&◌, map,
}
use cryptotrader.Prelude.Dict.{Dict, contains, keys}
use cryptotrader.Float.{Float}
use cryptotrader.Database.{Database}
use cryptotrader.Holdings.{ledger_holdings}
use cryptotrader.Reconcile.{AssetReconciliation, member, assets_of, row_for, reconcile}
use cryptotrader.Reconcile.Member.{
  member-sorted, member-set_of, member-append, member-filter, member-keys,
}

absorb : (p q r : Bool) → (p || (q && (p || r))) ≡ (p || (q && r))
absorb p q r = ground arith

-- The row of an asset in the result.
abbrev pub row_of :
    {W : Type 0} → String → List (AssetReconciliation W) → Option (AssetReconciliation W)
row_of a [] = none
row_of a (r ∷ rest) = if r.asset == a then some r else row_of a rest

module _ {W : Type 0} ⦃fl : Float W⦄ where
  row_of-map :
      (ledger balances baseline adjustment : Dict String W) (a : String) (xs : List String)
      → row_of a (map (row_for ledger balances baseline adjustment) xs)
        ≡ (if member a xs then some (row_for ledger balances baseline adjustment a) else none)
  row_of-map ledger balances baseline adjustment a [] = refl
  row_of-map ledger balances baseline adjustment a (x ∷ xs) = elim (Bool-cases (x == a)) [
    | inl same ↦ rw same (
        ap (λ y. some (row_for ledger balances baseline adjustment y))
          ((string_eq.beq_iff x a).0 same))
    | inr other ↦ rw other (row_of-map ledger balances baseline adjustment a xs)
  ]

  pub member-assets_of :
      (ledger balances baseline : Dict String W) (a : String)
      → member a (assets_of ledger balances baseline)
        ≡ (contains a ledger || (contains a balances && contains a baseline))
  unfolding assets_of
  member-assets_of ledger balances baseline a =
      member-sorted a _
      ∙ member-set_of a _
      ∙ member-append a (keys ledger) _
      ∙ rw (member-keys a ledger, member-filter a _ (keys balances), member-keys a balances)
          (absorb (contains a ledger) (contains a balances) (contains a baseline))

  -- An asset has a row exactly if the trade log has it, or the balances and the baseline both do.
  -- The row holds the two figures, with zero for a missing one, the baseline and the adjustment.
  pub reconcile-row_of :
      (db : Database W) (balances baseline : Dict String W) (mode : String)
      (adjustment : Dict String W) (a : String)
      → let ledger = ledger_holdings db mode in
        row_of a (reconcile db balances baseline mode adjustment) ≡ (
          if contains a ledger || (contains a balances && contains a baseline)
          then some (row_for ledger balances baseline adjustment a)
          else none)
  unfolding reconcile
  reconcile-row_of db balances baseline mode adjustment a =
      let ledger = ledger_holdings db mode in
      row_of-map ledger balances baseline adjustment a (assets_of ledger balances baseline)
      ∙ ap (λ b. if b then some (row_for ledger balances baseline adjustment a) else none)
          (member-assets_of ledger balances baseline a)
