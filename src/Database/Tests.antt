-- ===== src/Database/Tests.antt =====
-- Runs of cryptotrader/db/database.py, and the theorems about it at concrete inputs.
use cryptotrader.Prelude.{
  String, ℕ, All, ◌≡◌, ◌≢◌, ◌⊎◌, refl, arith, some, ok, raise, runtime_error, [], ◌∷◌, ◌++◌,
  if◌then◌else◌, string_eq,
}
use cryptotrader.Prelude.Int.{ℤ}
use cryptotrader.Float.Cents.{cents_float}
use mathlib.Core.List.{Mem}
use cryptotrader.Models.{Trade}
use cryptotrader.Database.{
  Database, Filters, no_filters, insert_trade, query_trades, trade_matches, has_key,
}
use cryptotrader.Database.Queries.{query_trades-insert_trade}
use cryptotrader.Database.Unique.{IsUnique, IsSame, insert_trade-IsUnique}
use cryptotrader.Samples.{bought, sold, db_of}

abbrev one_row : Database ℤ
one_row = db_of (bought ∷ [])

abbrev live : Filters
live = record no_filters { mode = some "production" }

abbrev paper : Filters
paper = record no_filters { mode = some "test" }

inserts : insert_trade one_row sold ≡ ok (2, db_of (bought ∷ sold ∷ []))
unfolding insert_trade has_key
inserts = refl

refuses : insert_trade one_row bought ≡ raise runtime_error
unfolding insert_trade has_key
refuses = refl

test_ne_empty : ◌≢◌ {A = String} "test" ""
test_ne_empty = ground (arith, string_eq.beq_iff "test" "")

live_ne_test : ◌≢◌ {A = String} "production" "test"
live_ne_test = ground (arith, string_eq.beq_iff "production" "test")

query_trades-insert_trade_example : query_trades (db_of (bought ∷ sold ∷ [])) live ≡ (
    if trade_matches live sold
    then query_trades one_row live ++ sold ∷ []
    else query_trades one_row live)
query_trades-insert_trade_example =
    query_trades-insert_trade one_row sold live (omega arith, tt) inserts

one_row-IsUnique : IsUnique one_row
one_row-IsUnique = (refl, (tt, tt))

insert_trade-IsUnique_example :
    ((insert_trade one_row sold ≡ raise runtime_error)
      × ((u : Trade ℤ) × Mem u (bought ∷ []) × IsSame sold u))
    ⊎ ((r : ℕ × Database ℤ) × (insert_trade one_row sold ≡ ok r)
        × All (λ u. ¬ IsSame sold u) (bought ∷ [])
        × (r.1.trades ≡ bought ∷ sold ∷ [])
        × IsUnique r.1)
insert_trade-IsUnique_example = insert_trade-IsUnique one_row sold one_row-IsUnique
