-- ===== src/Reconcile/Tests.antt =====
-- An account of bitcoin and dollars beside a log of two trades.
use cryptotrader.Prelude.{
  string_eq, ℕ, String, ◌≡◌, refl, some, none, true, List, [], ◌∷◌, if◌then◌else◌, ◌||◌, ◌&&◌,
}
use cryptotrader.Prelude.Dict.{Dict, contains}
use cryptotrader.Prelude.Int.{ℤ, pos, negsuc, ◌+ℤ◌, ◌-ℤ◌}
use cryptotrader.Float.Cents.{cents_float}
use cryptotrader.Database.{Database}
use cryptotrader.Holdings.{ledger_holdings}
use cryptotrader.Samples.{bought, db_of}
use cryptotrader.Reconcile.{Movement, Fill, row_for, reconcile, sorted, place_before}
use cryptotrader.Reconcile.Movements.{attribute_movements, manual_adjustment, residuals, zeros}
use cryptotrader.Reconcile.Listed.{row_of, reconcile-row_of}

abbrev balances : Dict String ℤ
balances = ("XXBT", pos 250000000) ∷ ("ZUSD", pos 40) ∷ ("XLM", pos 9) ∷ []

abbrev baseline : Dict String ℤ
baseline = ("XXBT", pos 50000000) ∷ ("XLM", pos 9) ∷ []

-- A manual sell of bitcoin, and one of XLM for bitcoin.
abbrev sell_of : String → ℕ → ℕ → String → Fill ℤ
sell_of pair vol time txid = record {
  time = some (pos time);
  pair = some pair;
  kind = some "sell";
  vol = some (pos vol);
  cost = some (pos 3);
  fee = some (pos 1);
  ordertxid = some txid;
}

abbrev fills : Dict String (Fill ℤ)
fills = ("F2", sell_of "XLMXBT" 7 20 "M1") ∷ ("F1", sell_of "XBTUSD" 5 10 "B1") ∷ []

abbrev movements : List (Movement ℤ)
movements =
    attribute_movements fills (("XBTUSD", ("XXBT", "ZUSD")) ∷ ("XLMXBT", ("XLM", "XXBT")) ∷ [])
      ("B1" ∷ []) ("XXBT" ∷ "XLM" ∷ [])

manual_only :
    manual_adjustment movements (pos 0) ("XXBT" ∷ "XLM" ∷ [])
    ≡ ("XXBT", pos 2) ∷ ("XLM", negsuc 6) ∷ []
unfolding attribute_movements manual_adjustment zeros sorted place_before ◌+ℤ◌ ◌-ℤ◌
manual_only = refl

left_over : residuals balances movements ("XXBT" ∷ []) ≡ ("XXBT", pos 250000003) ∷ []
unfolding residuals attribute_movements sorted place_before ◌+ℤ◌ ◌-ℤ◌
left_over = refl

abbrev log : Database ℤ
log = db_of (bought ∷ [])

reconcile-row_of_example : row_of "XLM" (reconcile log balances baseline "production" []) ≡ (
    if contains "XLM" (ledger_holdings log "production") || (true && true)
    then some (row_for (ledger_holdings log "production") balances baseline [] "XLM")
    else none)
reconcile-row_of_example = reconcile-row_of log balances baseline "production" [] "XLM"
