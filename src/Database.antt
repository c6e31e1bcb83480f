-- ===== src/Database.antt =====
-- cryptotrader/db/database.py: the tables as lists in the order of insertion, and the queries by
-- the meaning of their SQL. A timestamp column holds the ISO text of a UTC time, whose order is
-- that of the instants. An id is the position of its row. Failures of the file itself (a lock, a
-- full disk) are the caller's environment, not the table's.
pub mod Order
pub mod Queries
pub mod Unique
mod Tests
use Prim.Native.Nat.{◌+◌}
use cryptotrader.Prelude.{
  ℕ, String, Bool, true, false, ◌&&◌, ◌||◌, not, ◌==◌, nat_eq, string_eq, if◌then◌else◌, Option,
  none, some, List, [], ◌∷◌, ◌++◌, reverse, Result, ok, raise, runtime_error, length, take, filter,
}
use cryptotrader.Models.{Candle, Trade, RejectedOrder, Deposit, Side, side_eq}
use cryptotrader.Models.Time.{DateTime, time_eq, not_after, instant}

module _ (W : Type 0) where
  pub record Database : Type 0 where
    pub candles : List (Candle W)
    pub trades : List (Trade W)
    pub rejected_orders : List (RejectedOrder W)
    pub deposits : List (Deposit W)
    -- Whether the unique index on (pair, strategy, timestamp, side) of `trades` exists.
    pub unique_trades : Bool

-- `ORDER BY timestamp ASC`: rows of one timestamp keep the order of insertion.
module _ {R : Type 0} (stamp : R → DateTime) where
  unfoldable pub insert_by : R → List R → List R
  insert_by r [] = r ∷ []
  insert_by r (s ∷ rows) =
      if not_after (stamp r) (stamp s) then r ∷ s ∷ rows else s ∷ insert_by r rows

  unfoldable pub order_by : List R → List R
  order_by [] = []
  order_by (r ∷ rows) = insert_by r (order_by rows)

-- A condition that is left out where the argument is falsy: `None`, or an empty text.
unfoldable pub text_matches : Option String → String → Bool
text_matches none s = true
text_matches (some wanted) s = wanted == "" || s == wanted

unfoldable pub since_matches : Option DateTime → DateTime → Bool
since_matches none t = true
since_matches (some since) t = not_after since t

unfoldable pub until_matches : Option DateTime → DateTime → Bool
until_matches none t = true
until_matches (some until) t = not_after t until

module _ {W : Type 0} where
  -- The columns of the unique index.
  abbrev pub same_key : Trade W → Trade W → Bool
  same_key t u =
      t.pair == u.pair && t.strategy == u.strategy && t.timestamp == u.timestamp && t.side == u.side

  unfoldable pub has_key : Trade W → List (Trade W) → Bool
  has_key t [] = false
  has_key t (u ∷ us) = same_key t u || has_key t us

  unfoldable pub has_duplicates : List (Trade W) → Bool
  has_duplicates [] = false
  has_duplicates (t ∷ ts) = has_key t ts || has_duplicates ts

  abbrev pub empty_database : Database W
  empty_database = record {
    candles = [];
    trades = [];
    rejected_orders = [];
    deposits = [];
    unique_trades = false;
  }

  -- `init_db`: the tables are there already; the index is made unless duplicate rows forbid it.
  unfoldable pub init_db : Database W → Bool → Database W
  init_db db read_only =
      if read_only
      then db
      else record db { unique_trades = db.unique_trades || not (has_duplicates db.trades) }

  -- `insert_trade`: the row's id and the new database, or the RuntimeError of a duplicate.
  unfoldable pub insert_trade : Database W → Trade W → Result (ℕ × Database W)
  insert_trade db trade =
      if db.unique_trades && has_key trade db.trades
      then raise runtime_error
      else ok (length db.trades + 1, record db { trades = db.trades ++ trade ∷ [] })

  unfoldable pub insert_rejected_order : Database W → RejectedOrder W → ℕ × Database W
  insert_rejected_order db order = (
    length db.rejected_orders + 1,
    record db { rejected_orders = db.rejected_orders ++ order ∷ [] },
  )

  unfoldable pub insert_deposit : Database W → Deposit W → ℕ × Database W
  insert_deposit db deposit =
      (length db.deposits + 1, record db { deposits = db.deposits ++ deposit ∷ [] })

  -- `UNIQUE(pair, timeframe, timestamp)` with `INSERT OR IGNORE`.
  abbrev pub same_candle : Candle W → Candle W → Bool
  same_candle c d = c.pair == d.pair && c.timeframe == d.timeframe && c.timestamp == d.timestamp

  unfoldable pub has_candle : Candle W → List (Candle W) → Bool
  has_candle c [] = false
  has_candle c (d ∷ ds) = same_candle c d || has_candle c ds

  unfoldable pub insert_candle : Database W → Candle W → Database W
  insert_candle db candle =
      if has_candle candle db.candles then db else record db { candles = db.candles ++ candle ∷ [] }

  -- The newest `limit` rows, oldest first: `ORDER BY timestamp DESC LIMIT ?`, then `reversed`.
  unfoldable pub query_candles : Database W → String → ℕ → ℕ → List (Candle W)
  query_candles db pair timeframe limit = reverse (
      take limit (
        reverse (
          order_by (λ c. c.timestamp)
            (filter (λ c. c.pair == pair && c.timeframe == timeframe) db.candles))))

-- The keyword arguments of a query.
pub record Filters : Type 0 where
  pub pair : Option String
  pub mode : Option String
  pub strategy : Option String
  pub since : Option DateTime
  pub until : Option DateTime

abbrev pub no_filters : Filters
no_filters = record { pair = none; mode = none; strategy = none; since = none; until = none }

module _ {W : Type 0} where
  unfoldable pub trade_matches : Filters → Trade W → Bool
  trade_matches f t =
      text_matches f.pair t.pair
      && text_matches f.mode t.mode
      && text_matches f.strategy t.strategy
      && since_matches f.since t.timestamp
      && until_matches f.until t.timestamp

  -- The SQL leaves the order of rows of one timestamp open: the model takes that of insertion, as
  -- SQLite does where no pair is given; with a pair it may read them in the order of the index.
  unfoldable pub query_trades : Database W → Filters → List (Trade W)
  query_trades db f = order_by (λ t. t.timestamp) (filter (trade_matches f) db.trades)

  -- There is no condition on the strategy here.
  unfoldable pub order_matches : Filters → RejectedOrder W → Bool
  order_matches f r =
      text_matches f.pair r.pair
      && text_matches f.mode r.mode
      && since_matches f.since r.timestamp
      && until_matches f.until r.timestamp

  unfoldable pub query_rejected_orders : Database W → Filters → List (RejectedOrder W)
  query_rejected_orders db f =
      order_by (λ r. r.timestamp) (filter (order_matches f) db.rejected_orders)

  unfoldable pub query_deposits : Database W → Option DateTime → Option DateTime → List (Deposit W)
  query_deposits db since until =
      order_by (λ d. d.timestamp)
        (filter (λ d. since_matches since d.timestamp && until_matches until d.timestamp)
          db.deposits)
