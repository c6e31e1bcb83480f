-- ===== src/Tui/Tests.antt =====
-- A production screen with one trade in its history, and ticks of two pairs.
use cryptotrader.Prelude.{
  String, ◌≡◌, refl, true, some, none, List, [], ◌∷◌, ◌++◌, filter, map, Result, ok, string_eq,
}
use cryptotrader.Prelude.Int.{ℤ, pos, ◌*ℤ◌}
use cryptotrader.Prelude.Dict.{lookup}
use cryptotrader.Float.Cents.{cents_float}
use cryptotrader.Models.{Trade, Side, PriceTick, LogItem, traded}
use cryptotrader.Database.{
  Database, query_trades, query_deposits, query_rejected_orders, order_by, insert_by, trade_matches,
  text_matches, since_matches, until_matches,
}
use cryptotrader.Reconcile.{sorted, place_before}
use cryptotrader.Samples.{at, row, bought, sold, db_of, tick_at}
use cryptotrader.Tui.TradeLog.{item_line, load_history, merged, append_trade, re_render}
use cryptotrader.Tui.Prices.{PricePanel, update_tick, price_row, update_all}
use cryptotrader.Tui.Prices.Latest.{last_price, update_all-latest}
use cryptotrader.Tui.Weekly.{week_counts, add_count}
use cryptotrader.Tui.Balances.{
  in_hours, fmt_uptime, refresh_balance, known_lines, other_lines, money, amount,
}
use cryptotrader.Tui.App.{
  ScreenEvent, tz_toggled, panel_toggled, trade_came, price_came, mount, compose, handle_event,
  handle_events, toggle_tz, toggle_panel,
}
use cryptotrader.Tui.App.Shown.{history, kept_live, is_item, handle_events_show}

abbrev paper : LogItem ℤ
paper = traded (row Side.buy (at 11 0) 100 1 "test")

abbrev read : Result (String × Database ℤ)
read = ok ("production", db_of (bought ∷ []))

abbrev events : List (ScreenEvent ℤ)
events =
    trade_came paper
    ∷ price_came (tick_at (at 9 5) 100)
    ∷ tz_toggled
    ∷ panel_toggled "health-panel"
    ∷ trade_came (traded sold)
    ∷ []

-- Nothing of the other mode, and the history in UTC after the change.
shown :
    (handle_events "production" (mount "production" [] read) events).trade_log.written_lines
    ≡ item_line true (traded bought) ∷ item_line true (traded sold) ∷ []
unfolding handle_events handle_event mount toggle_tz toggle_panel compose load_history merged
    append_trade re_render update_tick order_by insert_by query_trades trade_matches text_matches
    since_matches until_matches query_deposits query_rejected_orders
shown = refl

handle_events_show_example :
    let a = handle_events "production" (mount "production" ("price-panel" ∷ []) read) events in
    (a.trade_log.log_items ≡ history read ++ kept_live "production" events)
    × (filter is_item a.trade_log.written_lines ≡ map (item_line a.use_utc) a.trade_log.log_items)
handle_events_show_example = handle_events_show "production" ("price-panel" ∷ []) read events

abbrev no_prices : PricePanel ℤ
no_prices = record { table = []; last_prices = [] }

abbrev other_tick : PriceTick ℤ
other_tick = record (tick_at (at 9 7) 30) { pair = "ETH/USD" }

update_all-latest_example :
    lookup "BTC/USD"
      (update_all true no_prices
        ((tick_at (at 9 5) 100 ∷ []) ++ tick_at (at 9 6) 120 ∷ other_tick ∷ [])).table
    ≡ some (
        price_row true
          (last_price "BTC/USD" none (tick_at (at 9 5) 100 ∷ []))
          (tick_at (at 9 6) 120))
update_all-latest_example =
    update_all-latest true no_prices (tick_at (at 9 5) 100 ∷ []) (tick_at (at 9 6) 120)
      (other_tick ∷ []) (refl, tt)

abbrev week : List (Trade ℤ)
week = bought ∷ sold ∷ record bought { pair = "ETH/USD" } ∷ []

abbrev pairs : List String
pairs = "BTC/USD" ∷ "SOL/USD" ∷ []

counted :
    week_counts pairs week
    ≡ ("BTC/USD", record { buys = 1; sells = 1 })
      ∷ ("SOL/USD", record { buys = 0; sells = 0 })
      ∷ ("ETH/USD", record { buys = 1; sells = 0 })
      ∷ []
unfolding week_counts add_count
counted = refl

an_hour : fmt_uptime 3725 ≡ in_hours 1 2
unfolding fmt_uptime
an_hour = refl

-- In whole units every threshold is zero.
balances :
    refresh_balance (ok (("ZUSD", pos 80) ∷ ("SOL", pos 3) ∷ []))
    ≡ money "USD" (pos 80)
      ∷ amount "BTC" (pos 0)
      ∷ amount "ETH" (pos 0)
      ∷ money "GBP" (pos 0)
      ∷ money "EUR" (pos 0)
      ∷ money "AUD" (pos 0)
      ∷ amount "SOL" (pos 3)
      ∷ []
unfolding refresh_balance known_lines other_lines sorted place_before ◌*ℤ◌
balances = refl
