-- ===== src/Statistics/Tests.antt =====
-- Runs of cryptotrader/statistics.py, and the theorems about it at concrete inputs.
use cryptotrader.Prelude.{some, All, ◌≡◌, refl, arith, List, [], ◌∷◌, ◌++◌, string_eq}
use cryptotrader.Prelude.Int.{ℤ, pos, ◌≤ℤ◌}
use cryptotrader.Float.Cents.{cents_float, cents_exact}
use cryptotrader.Models.{Trade, Side}
use cryptotrader.Database.{
  no_filters, Database, query_trades, order_by, insert_by, trade_matches, text_matches,
  since_matches, until_matches,
}
use cryptotrader.Models.Time.{midnight}
use cryptotrader.Statistics.{tally, pnl_against, open_after, held_after, daily_pnl}
use cryptotrader.Statistics.Fifo.{of_pair, with_pnl, tally-realized_pnl}
use cryptotrader.Statistics.Held.{net, NonNegative, held_after_greatest}
use cryptotrader.Statistics.Daily.{today, daily_pnl_sells_only}
use cryptotrader.Reconcile.{member, sorted, place_before, set_of}
use cryptotrader.Statistics.Names.{all_strategies, has_trade, member-all_strategies}
use cryptotrader.Samples.{at, bought, sold, db_of}

tally-realized_pnl_example :
    let s = tally (bought ∷ sold ∷ []) in
    (s.gains, s.losses)
    ≡ with_pnl
        (tally (bought ∷ []))
        (pnl_against (open_after (of_pair "BTC/USD" (bought ∷ []))) (pos 130) (pos 100000000))
tally-realized_pnl_example = tally-realized_pnl (bought ∷ []) sold refl

not_negative : NonNegative cents_exact (bought ∷ sold ∷ [])
not_negative = ((omega arith, (omega arith, tt)))

held_after_greatest_example :
    (net cents_exact (sold ∷ []) ≤ℤ held_after (bought ∷ sold ∷ []))
    × ((old : List (Trade ℤ)) × (new : List (Trade ℤ)) × (bought ∷ sold ∷ [] ≡ old ++ new)
        × (held_after (bought ∷ sold ∷ []) ≡ net cents_exact new))
held_after_greatest_example = held_after_greatest cents_exact (bought ∷ []) (sold ∷ []) not_negative

-- The buy is of the day before, so the day's figure misses the gain of its sell.
abbrev over_night : Database ℤ
over_night = db_of (record bought { timestamp = record (at 8 0) { day = 99 } } ∷ sold ∷ [])

only_sells : All (λ t. t.side ≡ Side.sell) (today over_night "production" (at 10 0))
unfolding query_trades order_by insert_by trade_matches text_matches since_matches until_matches
    midnight
only_sells = (refl, tt)

daily_pnl_sells_only_example : daily_pnl over_night "production" (at 10 0) ≡ pos 0
daily_pnl_sells_only_example =
    daily_pnl_sells_only cents_exact over_night "production" (at 10 0) only_sells

traded_names : all_strategies over_night "production" ≡ "threshold" ∷ []
unfolding all_strategies query_trades order_by insert_by trade_matches text_matches since_matches
    until_matches sorted place_before set_of
traded_names = refl

member-all_strategies_example :
    member "threshold" (all_strategies over_night "production")
    ≡ has_trade
        (trade_matches (record no_filters { mode = some "production" }))
        "threshold"
        over_night.trades
member-all_strategies_example = member-all_strategies over_night "production" "threshold"
