-- ===== src/Executor.antt =====
-- cryptotrader/executor.py: a proposed order is placed, rested or refused. The settings, the clock
-- and the answers of the exchange and of the database file to this one call are arguments. In
-- production the client is there: `_ensure_rest_client` makes it before any use.
pub mod Quote
pub mod Sizing
pub mod Endings
pub mod Reading
pub mod Outcomes
pub mod Paper
pub mod Rails
mod Tests
use cryptotrader.Prelude.{
  ℕ, String, Bool, true, false, not, ◌&&◌, ◌||◌, ◌==◌, string_eq, if◌then◌else◌, Option, none, some,
  List, [], ◌∷◌, ◌++◌, Result, ok, raise, key_error, runtime_error, io_error, Error,
}
use cryptotrader.Prelude.Dict.{Dict, lookup, get_or}
use cryptotrader.Float.{Float, ◌*◌, lit, neg, le, lt, gt}
use cryptotrader.Models.{
  Trade, RejectedOrder, LogItem, traded, rejected, Side, side_eq, Signal, buy_signal, sell_signal,
  RejectReason, insufficient_balance, max_order_exceeded, daily_loss_limit, no_open_position,
  balance_check_failed,
}
use cryptotrader.Models.Time.{DateTime, add_seconds}
use cryptotrader.Database.{Database, insert_trade}
use cryptotrader.Statistics.{realized_pnl_for_sell, open_position_quantity, daily_pnl}
use cryptotrader.Strategy.{CurrencyConfig}
use cryptotrader.Desk.{
  Desk, RestingEntry, Request, market_order, post_only, balance_query, put_or_drop, Action, pure,
  fail, ◌>>=◌, ◌>>◌,
}
use cryptotrader.Maker.{is_resting, add, try_insert_rejected}
use Quote.{quote_balance_key}

module _ (W : Type 0) where
  -- The parts of `Settings` that an order depends on.
  pub record Settings : Type 0 where
    pub active : String
    pub max_daily_loss_usd : W
    pub maker_entries : Bool
    pub maker_wait_seconds : ℕ
    pub maker_max_drift_pct : W
    pub currencies : Dict String (CurrencyConfig W)

  -- The environment of one call of `execute`.
  pub record Answers : Type 0 where
    -- the clock for the daily figure, and for the stamps of what is recorded
    pub today : DateTime
    pub now : DateTime
    -- `get_balance`, `place_order` and `place_post_only_limit`
    pub balance : Result (Dict String W)
    pub place_order : Result String
    pub place_post_only : Result String
    -- whether a refused order, and a trade, can be written
    pub reject_writable : Bool
    pub trade_writable : Bool

  -- The arguments of `execute`, with `side` for the signal; `C` names the callback.
  pub record Order (C : Type 0) : Type 0 where
    pub side : Side
    pub pair : String
    pub price : W
    pub strategy : String
    pub band_width : Option W
    pub on_reject : Option C

abbrev pub for_side : {A : Type 0} → Side → A → A → A
for_side Side.buy x y = x
for_side Side.sell x y = y

abbrev pub side_of : Signal → Side
side_of buy_signal = Side.buy
side_of sell_signal = Side.sell

module _ {W : Type 0} ⦃fl : Float W⦄ where
  -- `_check_balance` on what `get_balance` gave: the reason to refuse, if there is one.
  unfoldable pub check_balance : Answers W → String → W → Option RejectReason
  check_balance ans pair cost = elim ans.balance [
    | raise e ↦ some balance_check_failed
    | ok balance ↦
        if lt (get_or (quote_balance_key pair) (lit 0) balance) cost
        then some insufficient_balance
        else none
  ]

  -- The quantity of a production buy: `budget_usd` over the price, where both serve.
  unfoldable pub buy_quantity : CurrencyConfig W → W → W
  buy_quantity c price = elim c.budget_usd [
    | none ↦ c.quantity
    | some budget ↦ if gt price (lit 0) then fl.quot budget price else c.quantity
  ]

module _ {W C : Type 0} ⦃fl : Float W⦄ where
  -- `_reject`
  unfoldable pub reject :
      Settings W → Answers W → Order W C → W → RejectReason → Action W C (Unit {0})
  reject cfg ans o quantity reason d =
      let r : RejectedOrder W = record {
        pair = o.pair;
        side = o.side;
        price = o.price;
        quantity = quantity;
        reason = reason;
        mode = cfg.active;
        strategy = o.strategy;
        timestamp = ans.now;
      } in
      (
        ok tt,
        record d {
          db = try_insert_rejected ans.reject_writable r d.db;
          tui = put_or_drop d.tui (rejected r);
        },
      )

  abbrev pub ask : Request W → Action W C (Unit {0})
  ask r d = (ok tt, record d { sent = d.sent ++ r ∷ [] })

  abbrev pub refuse_if :
      Settings W → Answers W → Order W C → W → Option RejectReason → Action W C (Option W)
  refuse_if cfg ans o quantity none = pure (some quantity)
  refuse_if cfg ans o quantity (some reason) = reject cfg ans o quantity reason >> pure none

  -- The branch of a production buy: the quantity, or `none` once the order is refused.
  unfoldable pub size_buy :
      Settings W → Answers W → Order W C → CurrencyConfig W → Action W C (Option W)
  size_buy cfg ans o c =
      let quantity = buy_quantity c o.price in
      let cost = quantity * o.price in
      if gt cost c.max_order_usd
      then (reject cfg ans o quantity max_order_exceeded >> fail runtime_error)
      else (ask balance_query >> refuse_if cfg ans o quantity (check_balance ans o.pair cost))

  -- The branch of a production sell: the open position of the trade log.
  unfoldable pub size_sell : Settings W → Answers W → Order W C → Action W C (Option W)
  size_sell cfg ans o d =
      let quantity = open_position_quantity d.db o.pair cfg.active (some o.strategy) in
      (if le quantity (lit 0)
          then (reject cfg ans o (lit 0) no_open_position >> pure none)
          else pure (some quantity))
        d

  unfoldable pub size_order :
      Settings W → Answers W → Order W C → CurrencyConfig W → Action W C (Option W)
  size_order cfg ans o c =
      if cfg.active == "production"
      then for_side o.side (size_buy cfg ans o c) (size_sell cfg ans o)
      else pure (some c.quantity)

  -- Whether the daily loss limit stops the order.
  unfoldable pub loss_limit_hit : Settings W → Answers W → Desk W C → Bool
  loss_limit_hit cfg ans d = le (daily_pnl d.db cfg.active ans.today) (neg cfg.max_daily_loss_usd)

  -- `_maker_eligible`
  unfoldable pub maker_eligible : Settings W → Order W C → Desk W C → Bool
  maker_eligible cfg o d =
      o.side == Side.buy && d.has_book && cfg.maker_entries && not (is_resting o.pair o.strategy d)

  -- `_rest_maker_entry`
  abbrev pub entry_of : Settings W → Answers W → Order W C → W → Option String → RestingEntry W C
  entry_of cfg ans o quantity txid = record {
    pair = o.pair;
    limit_price = o.price;
    quantity = quantity;
    strategy = o.strategy;
    mode = cfg.active;
    deadline = add_seconds ans.now cfg.maker_wait_seconds;
    max_drift_pct = cfg.maker_max_drift_pct;
    band_width = o.band_width;
    on_reject = o.on_reject;
    placed_at = ans.now;
    txid = txid;
  }

  abbrev pub rest_posted :
      Settings W → Answers W → Order W C → W → Result String → Action W C (Unit {0})
  rest_posted cfg ans o quantity (raise e) d = (raise e, d)
  rest_posted cfg ans o quantity (ok txid) d =
      (ok tt, add (entry_of cfg ans o quantity (some txid)) d)

  abbrev pub limit_of : Settings W → Order W C → W → Request W
  limit_of cfg o quantity = post_only o.pair Side.buy quantity o.price cfg.maker_wait_seconds

  unfoldable pub rest_maker_entry : Settings W → Answers W → Order W C → W → Action W C (Unit {0})
  rest_maker_entry cfg ans o quantity d =
      if cfg.active == "production"
      then (ask (limit_of cfg o quantity) >> rest_posted cfg ans o quantity ans.place_post_only) d
      else (ok tt, add (entry_of cfg ans o quantity none) d)

  -- The trade that is about to be placed, its figure taken before it is recorded.
  unfoldable pub trade_of : Settings W → Answers W → Order W C → W → Desk W C → Trade W
  trade_of cfg ans o quantity d = record {
    pair = o.pair;
    side = o.side;
    price = o.price;
    quantity = quantity;
    mode = cfg.active;
    strategy = o.strategy;
    timestamp = ans.now;
    pnl = elim o.side [
      | Side.buy ↦ none
      | Side.sell ↦ realized_pnl_for_sell d.db o.pair cfg.active o.price quantity (some o.strategy)
    ];
    txid = none;
    band_width = o.band_width;
  }

  -- `insert_trade` and the queue, behind a placed order.
  abbrev pub recorded : Trade W → Result (ℕ × Database W) → Action W C (Option (Trade W))
  recorded t (raise e) d = (raise e, d)
  recorded t (ok r) d = (ok (some t), record d { db = r.1; tui = put_or_drop d.tui (traded t) })

  unfoldable pub record_trade : Answers W → Trade W → Action W C (Option (Trade W))
  record_trade ans t d =
      recorded t (if ans.trade_writable then insert_trade d.db t else raise io_error) d

  -- Behind the call of `place_order`, which has been made when it raises or the recording fails.
  abbrev pub place_live : Answers W → Trade W → Result String → Action W C (Option (Trade W))
  place_live ans t (raise e) d = (raise e, d)
  place_live ans t (ok txid) d = record_trade ans (record t { txid = some txid }) d

  -- The two modes.
  unfoldable pub place : Settings W → Answers W → Trade W → Action W C (Option (Trade W))
  place cfg ans t d =
      if cfg.active == "test"
      then record_trade ans t d
      else if cfg.active == "production"
      then (ask (market_order t.pair t.side t.quantity) >> place_live ans t ans.place_order) d
      else (raise runtime_error, d)

  -- What follows the sizing: the loss limit, the maker entry, the market order.
  unfoldable pub submit :
      Settings W → Answers W → Order W C → Option W → Action W C (Option (Trade W))
  submit cfg ans o none d = (ok none, d)
  submit cfg ans o (some quantity) d =
      if loss_limit_hit cfg ans d
      then (reject cfg ans o quantity daily_loss_limit >> pure none) d
      else if maker_eligible cfg o d
      then (rest_maker_entry cfg ans o quantity >> pure none) d
      else place cfg ans (trade_of cfg ans o quantity d) d

  abbrev pub with_config :
      Settings W → Answers W → Order W C → Option (CurrencyConfig W) → Action W C (Option (Trade W))
  with_config cfg ans o none = fail key_error
  with_config cfg ans o (some c) = size_order cfg ans o c >>= submit cfg ans o

  -- `execute`: the recorded trade, or `none` for an order that was refused or rests.
  unfoldable pub execute : Settings W → Answers W → Order W C → Action W C (Option (Trade W))
  execute cfg ans o = with_config cfg ans o (lookup o.pair cfg.currencies)
