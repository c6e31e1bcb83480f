-- ===== src/Tui/TradeLog.antt =====
-- cryptotrader/tui/trade_log_panel.py. A line is known by its item and the zone of its time. The
-- state has the lines written to the widget since it was cleared; which of them RichLog still holds,
-- for it keeps the newest 500, is its own.
use cryptotrader.Prelude.{
  String, Bool, false, not, ◌&&◌, ◌==◌, string_eq, if◌then◌else◌, Option, none, some, List, [], ◌∷◌,
  ◌++◌, foldl, map, take_last, length, ℕ, Result, ok, raise,
}
use cryptotrader.Models.{LogItem, traded, deposited, rejected}
use cryptotrader.Models.Time.{DateTime}
use cryptotrader.Database.{
  Database, no_filters, order_by, query_trades, query_deposits, query_rejected_orders,
}

abbrev pub mode_of : String → Option String
mode_of active = if active == "production" then some active else none

abbrev pub is_foreign : String → Option String → Bool
is_foreign active none = false
is_foreign active (some mode) = active == "production" && not (mode == "production")

module _ (W : Type 0) where
  -- `_render_item` of an item, in UTC or in local time, and the mark after the history.
  pub data Line : Type 0 where
    item_line : Bool → LogItem W → Line
    history_mark : ℕ → Line

  pub record TradeLogPanel : Type 0 where
    pub log_items : List (LogItem W)
    pub written_lines : List Line

module _ {W : Type 0} where
  abbrev pub item_time : LogItem W → DateTime
  item_time (traded t) = t.timestamp
  item_time (deposited d) = d.timestamp
  item_time (rejected r) = r.timestamp

  -- `getattr(item, "mode", None)`
  abbrev pub item_mode : LogItem W → Option String
  item_mode (traded t) = some t.mode
  item_mode (deposited d) = none
  item_mode (rejected r) = some r.mode

  abbrev pub empty_panel : TradeLogPanel W
  empty_panel = record { log_items = []; written_lines = [] }

  -- What the panel reads, oldest first.
  unfoldable pub merged : String → Database W → List (LogItem W)
  merged active db =
      let in_mode = record no_filters { mode = mode_of active } in
      order_by item_time (
        map traded (query_trades db in_mode)
        ++ (map deposited (query_deposits db none none)
            ++ map rejected (query_rejected_orders db in_mode)))

  abbrev pub write_item : Bool → TradeLogPanel W → LogItem W → TradeLogPanel W
  write_item use_utc p item = record {
    log_items = p.log_items ++ item ∷ [];
    written_lines = p.written_lines ++ item_line use_utc item ∷ [];
  }

  abbrev pub write_history : Bool → List (LogItem W) → TradeLogPanel W → TradeLogPanel W
  write_history use_utc [] p = p
  write_history use_utc (item ∷ rest) p =
      let written = foldl (write_item use_utc) p (item ∷ rest) in
      record written {
        written_lines = written.written_lines ++ history_mark (length (item ∷ rest)) ∷ [];
      }

  -- `_load_history`, which an exception of the settings or the database leaves without effect.
  unfoldable pub load_history :
      Bool → Result (String × Database W) → TradeLogPanel W → TradeLogPanel W
  load_history use_utc (raise e) p = p
  load_history use_utc (ok (active, db)) p =
      write_history use_utc (take_last 100 (merged active db)) p

  unfoldable pub append_trade : String → Bool → LogItem W → TradeLogPanel W → TradeLogPanel W
  append_trade active use_utc item p =
      if is_foreign active (item_mode item) then p else write_item use_utc p item

  unfoldable pub re_render : Bool → TradeLogPanel W → TradeLogPanel W
  re_render use_utc p = record p { written_lines = map (item_line use_utc) p.log_items }
