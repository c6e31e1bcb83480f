-- ===== src/Strategy/Restart.antt =====
-- What a strategy takes from the trade log at a restart.
use Prim.Native.Nat.{◌+◌}
use cryptotrader.Prelude.{
  ℕ, String, ◌≡◌, ◌≢◌, refl, ap, ◌∙◌, true, some, [], ◌∷◌, ◌++◌, ok, arith, last?, last?-append_one,
  string_eq,
}
use cryptotrader.Models.{Trade, Side}
use cryptotrader.Database.{
  Database, insert_trade, query_trades, trade_matches, query_candles, text_matches, since_matches,
  until_matches,
}
use cryptotrader.Database.Queries.{query_trades_other_mode, query_trades-insert_trade, AllBefore}
use cryptotrader.Statistics.{position_filters}
use cryptotrader.Strategy.Threshold.{if_buy, last_buy, restore_threshold}
use cryptotrader.Strategy.Ema.{restore_ema}
use cryptotrader.Strategy.Bollinger.{restore_bollinger}
use cryptotrader.Strategy.TrendPullback.{restore_trend_pullback}
use cryptotrader.Strategy.{
  Strategy, threshold_s, ema_s, bollinger_s, trend_pullback_s, restore, name_of, base_of,
}

module _ {W : Type 0} where
  -- What `restore` reads of the database: the last buy of the position, and candles.
  last_buy_other_mode :
      (db : Database W) (t : Trade W) (pair mode name : String) (r : ℕ × Database W)
      → insert_trade db t ≡ ok r
      → mode ≢ ""
      → t.mode ≢ mode
      → last_buy r.1 pair mode name ≡ last_buy db pair mode name
  unfolding last_buy
  last_buy_other_mode db t pair mode name r e ne other =
      ap (λ q. if_buy (last? q))
        (query_trades_other_mode db t (position_filters pair mode (some name)) mode e refl ne other)

  query_candles-insert_trade :
      (db : Database W) (t : Trade W) (r : ℕ × Database W) (pair : String) (tf limit : ℕ)
      → insert_trade db t ≡ ok r
      → query_candles r.1 pair tf limit ≡ query_candles db pair tf limit
  unfolding insert_trade query_candles
  query_candles-insert_trade db t r pair tf limit e =
      let same : r.1.candles ≡ db.candles = ground arith in rw same

  -- A trade of one mode never moves what a strategy restores in another: paper trades cannot seed
  -- a production position.
  pub restore_other_mode :
      (s : Strategy W) (db : Database W) (t : Trade W) (pair mode : String) {r : ℕ × Database W}
      → insert_trade db t ≡ ok r
      → mode ≢ ""
      → t.mode ≢ mode
      → restore s r.1 pair mode ≡ restore s db pair mode
  unfolding restore restore_threshold restore_ema restore_bollinger restore_trend_pullback
  restore_other_mode (threshold_s s) db t pair mode {r} e ne other =
      rw (last_buy_other_mode db t pair mode "threshold" r e ne other)
  restore_other_mode (ema_s s) db t pair mode {r} e ne other = rw (
    last_buy_other_mode db t pair mode "ema" r e ne other,
    query_candles-insert_trade db t r pair 60 (s.params.slow_period + 10) e,
  )
  restore_other_mode (bollinger_s s) db t pair mode {r} e ne other = rw (
    last_buy_other_mode db t pair mode "bollinger" r e ne other,
    query_candles-insert_trade db t r pair 60 (s.params.period + 10) e,
    query_candles-insert_trade db t r pair s.params.trend_timeframe_minutes
        (s.params.trend_ema_period + 10) e,
  )
  restore_other_mode (trend_pullback_s s) db t pair mode {r} e ne other = rw (
    last_buy_other_mode db t pair mode "trend_pullback" r e ne other,
    query_candles-insert_trade db t r pair 60 (s.params.pullback_ema_period + 10) e,
    query_candles-insert_trade db t r pair 240 (s.params.trend_ema_period + 10) e,
  )

  own_trade_matches :
      (t : Trade W) → trade_matches (position_filters t.pair t.mode (some t.strategy)) t ≡ true
  unfolding trade_matches text_matches since_matches until_matches
  own_trade_matches t = ground (
    arith,
    string_eq.beq_iff t.pair t.pair,
    string_eq.beq_iff t.mode t.mode,
    string_eq.beq_iff t.strategy t.strategy,
  )

  last_buy-insert_trade :
      (db : Database W) (t : Trade W) (r : ℕ × Database W)
      → AllBefore t db.trades
      → insert_trade db t ≡ ok r
      → last_buy r.1 t.pair t.mode t.strategy ≡ if_buy (some t)
  unfolding last_buy
  last_buy-insert_trade db t r h e =
      let own = position_filters t.pair t.mode (some t.strategy) in
      let recorded : query_trades r.1 own ≡ query_trades db own ++ t ∷ [] =
        rw (own_trade_matches t) at (query_trades-insert_trade db t own h e) in
      ap (λ q. if_buy (last? q)) recorded ∙ ap if_buy (last?-append_one (query_trades db own) t)

  restored_side :
      (s : Strategy W) (db : Database W) (t : Trade W) (pair mode : String)
      → last_buy db pair mode (name_of s) ≡ if_buy (some t)
      → (t.side ≡ Side.buy → (base_of (restore s db pair mode)).position.in_position ≡ true)
        × (t.side ≡ Side.sell → base_of (restore s db pair mode) ≡ base_of s)
  unfolding restore restore_threshold restore_ema restore_bollinger restore_trend_pullback
  restored_side (threshold_s s) db t pair mode e = (λ h. ground arith, λ h. ground arith)
  restored_side (ema_s s) db t pair mode e = (λ h. ground arith, λ h. ground arith)
  restored_side (bollinger_s s) db t pair mode e = (λ h. ground arith, λ h. ground arith)
  restored_side (trend_pullback_s s) db t pair mode e = (λ h. ground arith, λ h. ground arith)

  -- A strategy that is restored after its own buy was recorded, the latest of the log, is long.
  pub restore-bought :
      (s : Strategy W) (db : Database W) (t : Trade W) {r : ℕ × Database W}
      → AllBefore t db.trades
      → insert_trade db t ≡ ok r
      → t.strategy ≡ name_of s
      → t.side ≡ Side.buy
      → (base_of (restore s r.1 t.pair t.mode)).position.in_position ≡ true
  restore-bought s db t {r} h e own =
      (restored_side s r.1 t t.pair t.mode (rw (← own) (last_buy-insert_trade db t r h e))).0

  -- A strategy that is restored after its own sell was recorded, the latest of the log, believes
  -- what it believed when it was made.
  pub restore-sold :
      (s : Strategy W) (db : Database W) (t : Trade W) {r : ℕ × Database W}
      → AllBefore t db.trades
      → insert_trade db t ≡ ok r
      → t.strategy ≡ name_of s
      → t.side ≡ Side.sell
      → base_of (restore s r.1 t.pair t.mode) ≡ base_of s
  restore-sold s db t {r} h e own =
      (restored_side s r.1 t t.pair t.mode (rw (← own) (last_buy-insert_trade db t r h e))).1
