-- ===== src/Executor/Tests.antt =====
-- Runs of cryptotrader/executor.py, and the theorems about it at concrete inputs.
use cryptotrader.Prelude.{◌≡◌, refl, true, false, string_eq, [], ◌∷◌}
use cryptotrader.Prelude.Int.{ℤ, ◌+ℤ◌, ◌*ℤ◌, ◌-ℤ◌}
use cryptotrader.Float.Cents.{cents_float}
use cryptotrader.Statistics.{
  daily_pnl, compute, stats_of, result_of, tally, count_trade, close_oldest, book,
}
use cryptotrader.Database.{
  query_trades, order_by, insert_by, trade_matches, text_matches, since_matches, until_matches,
}
use cryptotrader.Models.Time.{midnight}
use cryptotrader.Models.{Side}
use cryptotrader.Desk.{Desk}
use cryptotrader.Trader.{Callback}
use cryptotrader.Float.{neg}
use cryptotrader.Float.Laws.{◌≼◌}
use cryptotrader.Executor.{execute}
use cryptotrader.Executor.Sizing.{Still}
use cryptotrader.Executor.Endings.{Outcome}
use cryptotrader.Executor.Outcomes.{execute-Outcome}
use cryptotrader.Executor.Paper.{paper_sends_nothing}
use cryptotrader.Executor.Rails.{Sends, loss_limit_stops, orders_within_limits}
use cryptotrader.Samples.{at, row, bought, db_of, settings, answers, order, desk}

execute-Outcome_example :
    Outcome
      (settings "production" false)
      answers
      (order Side.sell)
      (desk (db_of (bought ∷ [])))
      (execute (settings "production" false) answers (order Side.sell) (desk (db_of (bought ∷ []))))
execute-Outcome_example =
    execute-Outcome (settings "production" false) answers (order Side.sell)
      (desk (db_of (bought ∷ [])))

paper_sends_nothing_example :
    (execute (settings "test" true) answers (order Side.buy) (desk (db_of []))).1.sent ≡ []
paper_sends_nothing_example =
    paper_sends_nothing (settings "test" true) answers (order Side.buy) (desk (db_of [])) refl

orders_within_limits_example :
    Sends
      (settings "production" false)
      answers
      (order Side.buy)
      (desk (db_of []))
      (execute (settings "production" false) answers (order Side.buy) (desk (db_of []))).1
orders_within_limits_example =
    orders_within_limits (settings "production" false) answers (order Side.buy) (desk (db_of []))
      refl

-- Bought at 100 and sold at 30 on the day.
abbrev bad_day : Desk ℤ Callback
bad_day = desk (db_of (bought ∷ row Side.sell (at 9 0) 30 300000000 "production" ∷ []))

limit_hit :
    daily_pnl bad_day.db "production" answers.today
    ≼ neg (settings "production" false).max_daily_loss_usd
unfolding daily_pnl compute stats_of query_trades order_by trade_matches text_matches since_matches
    midnight until_matches insert_by result_of ◌+ℤ◌ ◌*ℤ◌ ◌-ℤ◌ tally count_trade close_oldest book
limit_hit = refl

loss_limit_stops_example :
    Still true bad_day (execute (settings "production" false) answers (order Side.buy) bad_day).1
loss_limit_stops_example =
    loss_limit_stops (settings "production" false) answers (order Side.buy) bad_day limit_hit
