-- ===== src/Lib.antt =====
-- A model of cryptotrader, a trading bot for the Kraken exchange, and the theorems about it.
--
-- The program. Ticks arrive at the trader (cryptotrader/trader.py), which passes each to the
-- strategies of its pair (cryptotrader/strategy). A strategy folds ticks into candles
-- (cryptotrader/candles.py), reads indicators off them and proposes an order; when it does, it
-- flips its own belief about its position and arms a rollback. The executor
-- (cryptotrader/executor.py) sizes the order and places, rests or refuses it, with figures that
-- cryptotrader/statistics.py derives from the trade log (cryptotrader/db/database.py). A resting
-- entry is held by the maker book (cryptotrader/maker.py), which resolves it from ticks in test
-- mode and by asking the exchange in production. The trader then confirms the belief of the
-- strategy or rolls it back.
--
-- The files.
--   Prelude: equality tests, lists, results, dicts as association lists, integers.
--   Float: Python's float as a parameter, a type W with the operations that the program calls.
--     Float/Laws names what a few theorems assume of it: an order without NaN, or no rounding.
--     Float/Cents meets both with whole units, and the tests run on it.
--   Models: the records of cryptotrader/models.py; Models/Time: UTC datetimes.
--   Candles: CandleBuilder. Its `_current` and `_completed` are the fields `current` and
--     `completed`, and `add_tick` returns the new builder beside the method's result.
--   Indicators: cryptotrader/strategy/_indicators.py.
--   Database: the tables as lists in the order of insertion, the queries by the meaning of their
--     SQL. Timestamps are UTC, so the order of their ISO texts is that of the instants. Rows of one
--     timestamp come in the order of insertion; the SQL leaves it open.
--   Statistics: compute, realized_pnl_for_sell, open_position_quantity, daily_pnl, and
--     (Names) all_strategies.
--   Strategy: the base class's rollback (Belief), the four strategies, the registry. A strategy's
--     method returns the new strategy; `evaluate` returns the new database and the signal too.
--   Desk: the state that executor, book and trader share: the trade log, the calls of the exchange
--     client but for those of order_status, the queue of the TUI, the dict `_resting`, and the
--     rollbacks that were called.
--   Maker, Executor, Trader: the classes MakerBook, TradeExecutor and Trader. A method is a
--     function of the desk, which keeps what was written before an exception. Maker/Settle is
--     the book's reconcile.
--   Holdings: what cryptotrader/reconcile.py reads off the trade log, by pair and by asset.
--   Exchange: cryptotrader/exchange. Bucket is _TokenBucket; Rest is KrakenRest, whose state is a
--     client with the requests that it posted, Rest/Endpoints its public methods; Feed is
--     KrakenWebSocket, a machine whose phases are the places where its connect loop waits, and
--     whose events are what it waits for.
--   Reconcile: the rest of cryptotrader/reconcile.py, the log against the exchange. A dict of the
--     exchange is a dict whose numbers are read already. Reconcile/Movements attributes fills
--     and rewards.
--   DailyCheck: scripts/daily_check.py, the checks, the report and the exit code.
--   Backtest: scripts/backtest.py, the replay of candles through a variant and its books, and
--     (Validate) the comparison of the replay with what production traded.
--   WriteBaseline: scripts/write_baseline.py with save_baseline of cryptotrader/reconcile.py.
--   Backfill: scripts/backfill_pnl.py, the realized figures of old sells.
--   Report: scripts/report.py, the periods and the figures of each.
--   Health: cryptotrader/health.py, a request of /health and its cached checks.
--   Tui: cryptotrader/tui. App is the application, whose events are keys and items of its queues;
--     TradeLog, Prices, Weekly and Balances are panels, as what was written to them.
--   Process: cryptotrader/main.py, what a start becomes, and the monitor's poller.
--   Samples: the prices, trades and settings of the tests.
--
-- The environment. The clock, the settings, the answers of the exchange to one call, the health of
-- the feed and whether a write to the database file succeeds are arguments of the operations, and
-- the theorems hold for all of them. A callback is the pair and the name of a strategy: the book
-- logs the call, and the trader answers it before a strategy is read again.
--
-- Bounds. One loop runs on fuel, that of scripts/report.py over the months before a year: it is
-- given the months that the period lies back, which are more than its rounds. Every other loop is
-- over a list of rows, candles, ticks, entries, strategies, events or readings of a clock, and is
-- recursion on that list. The loop of the token bucket is over the readings of the clock that it
-- makes. Periods, timeframes and limits are natural numbers; a period or a timeframe of 0 raises
-- ZeroDivisionError as the source does.
--
-- Not modelled. Log messages and the detail texts of refused orders and of the daily check; the
-- column migrations, the permissions and the connections of the database file; the loading and
-- validation of the configuration; the server of cryptotrader/health.py; the markup of the TUI, the
-- lines that its widgets discard, and its panel of statistics; the order that SQLite gives to rows
-- of one timestamp; the other scripts; the HTTP session of the REST client, the library of the
-- websocket feed, SSH, the baseline file and the wiring of tasks, which are input and output. The
-- executor and the trader take the answers of the exchange as arguments, not from the model of the
-- client. Rounds of the trader's two tasks follow one another: a tick that arrives while the other
-- task waits for the exchange is not interleaved into its pass. An exception in `evaluate` ends the
-- loop, and what the strategy had built by then is not kept.
pub mod Prelude
pub mod Samples
pub mod Float
pub mod Models
pub mod Candles
pub mod Indicators
pub mod Database
pub mod Statistics
pub mod Strategy
pub mod Desk
pub mod Maker
pub mod Executor
pub mod Trader
pub mod Holdings
pub mod Exchange
pub mod Reconcile
pub mod DailyCheck
pub mod WriteBaseline
pub mod Tui
pub mod Report
pub mod Health
pub mod Process
pub mod Backfill
pub mod Backtest
