-- ===== src/Process.antt =====
-- cryptotrader/main.py: what a start of the program becomes, and the poller of the monitor. The
-- command line, the settings, the lock file and the wiring of the tasks are arguments or left out.
pub mod Launch
pub mod Poll
mod Tests
use Prim.Native.Nat.{◌+◌}
use cryptotrader.Prelude.{
  ℕ, String, Bool, true, false, ◌||◌, ◌&&◌, ◌==◌, string_eq, if◌then◌else◌, Option, none, some,
  List, [], ◌∷◌, ◌++◌, foldl, map,
}
use cryptotrader.Models.{LogItem, traded, deposited, rejected, Trade, RejectedOrder}
use cryptotrader.Models.Time.{DateTime, instant, of_instant}
use cryptotrader.Database.{
  Database, Filters, no_filters, query_trades, query_rejected_orders, order_by,
}
use cryptotrader.Desk.{Queue, is_full}

pub record Args : Type 0 where
  pub tui : Bool
  pub monitor_only : Bool
  pub hide_prices : Bool
  pub hide_weekly : Bool
  pub hide_balance : Bool
  pub hide_health : Bool
  pub hide_trades : Bool
  pub hide_stats : Bool

-- `settings.mode.active`, the secrets, and whether no other instance holds the lock.
pub record Setup : Type 0 where
  pub active : String
  pub kraken_api_key : String
  pub kraken_api_secret : String
  pub lock_free : Bool

pub data Start : Type 0 where
  -- `_run_monitor`, and `_run`, which starts a Trader
  monitors trades : Start
  -- `sys.exit`, and the RuntimeError on missing keys
  refuses lacks_keys : Start

pub record Startup : Type 0 where
  pub lock_tried : Bool
  pub with_tui : Bool
  pub hidden_panels : List String
  pub start : Start

abbrev pub hide : Bool → String → List String → List String
hide b panel rest = if b then panel ∷ rest else rest

unfoldable pub hidden_panels : Args → List String
hidden_panels a = hide a.hide_prices "price-panel" (
    hide a.hide_weekly "weekly-summary-panel" (
      hide a.hide_balance "balance-panel" (
        hide a.hide_health "health-panel"
          (hide a.hide_trades "trade-log-panel" (hide a.hide_stats "stats-panel" [])))))

abbrev pub launch : Args → Bool → Start → Startup
launch a tried start = record {
  lock_tried = tried;
  with_tui = a.monitor_only || a.tui;
  hidden_panels = hidden_panels a;
  start = start;
}

unfoldable pub main : Args → Setup → Startup
main a s =
    if a.monitor_only
    then launch a false monitors
    else if s.active == "production" && (s.kraken_api_key == "" || s.kraken_api_secret == "")
    then launch a false lacks_keys
    else if s.lock_free
    then launch a true trades
    else if a.tui
    then launch a true monitors
    else launch a true refuses

-- The cursors of `_poll_new_trades`, and the queue that it fills.
pub record Poller (W : Type 0) : Type 0 where
  pub last_trade_ts : DateTime
  pub last_reject_ts : DateTime
  pub trade_queue : Queue (LogItem W)

-- `t + timedelta(microseconds=1)`
abbrev pub just_after : DateTime → DateTime
just_after t = of_instant (instant t + 1)

abbrev pub since_cursor : DateTime → Filters
since_cursor t = record no_filters { since = some (just_after t) }

-- The cursor after the loop over the new rows.
abbrev pub move_cursor : {R : Type 0} → (R → DateTime) → DateTime → List R → DateTime
move_cursor stamp = foldl λ t r. stamp r

module _ {W : Type 0} where
  abbrev pub stamp_of : LogItem W → DateTime
  stamp_of (traded t) = t.timestamp
  stamp_of (deposited d) = d.timestamp
  stamp_of (rejected r) = r.timestamp

  -- A full queue drops the item.
  abbrev pub put_if_room : Queue (LogItem W) → LogItem W → Queue (LogItem W)
  put_if_room q item = if is_full q then q else record q { items = q.items ++ item ∷ [] }

  unfoldable pub new_trades : Database W → Poller W → List (Trade W)
  new_trades db p = query_trades db (since_cursor p.last_trade_ts)

  unfoldable pub new_rejects : Database W → Poller W → List (RejectedOrder W)
  new_rejects db p = query_rejected_orders db (since_cursor p.last_reject_ts)

  -- One round. `none` is a file that cannot be read, where the exception ends the round.
  unfoldable pub poll : Option (Database W) → Poller W → Poller W
  poll none p = p
  poll (some db) p =
      let items =
        order_by stamp_of (map traded (new_trades db p) ++ map rejected (new_rejects db p)) in
      record {
        last_trade_ts = move_cursor (λ t. t.timestamp) p.last_trade_ts (new_trades db p);
        last_reject_ts = move_cursor (λ r. r.timestamp) p.last_reject_ts (new_rejects db p);
        trade_queue = foldl put_if_room p.trade_queue items;
      }
