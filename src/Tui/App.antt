-- ===== src/Tui/App.antt =====
-- cryptotrader/tui/app.py: the application that holds the panels. A key or an item of a queue is an
-- event; the panels of the screen are known by their ids.
pub mod Shown
use cryptotrader.Prelude.{
  String, Bool, true, false, not, ◌==◌, string_eq, if◌then◌else◌, Option, none, some, List, [], ◌∷◌,
  ◌++◌, foldl, map, Result,
}
use cryptotrader.Prelude.Dict.{Dict, lookup, insert}
use cryptotrader.Float.{Float}
use cryptotrader.Models.{LogItem, PriceTick}
use cryptotrader.Database.{Database}
use cryptotrader.Tui.TradeLog.{TradeLogPanel, empty_panel, load_history, append_trade, re_render}
use cryptotrader.Tui.Prices.{PricePanel, update_tick}

module _ (W : Type 0) where
  pub record App : Type 0 where
    pub use_utc : Bool
    pub trade_log : TradeLogPanel W
    pub prices : PricePanel W
    -- The panels that are on the screen, and whether each is displayed.
    pub displayed : Dict String Bool

  pub data ScreenEvent : Type 0 where
    tz_toggled : ScreenEvent
    panel_toggled : String → ScreenEvent
    price_came : PriceTick W → ScreenEvent
    trade_came : LogItem W → ScreenEvent

-- `compose`, the ids in order.
unfoldable pub compose : String → List String
compose active =
    "price-panel"
    ∷ "weekly-summary-panel"
    ∷ ((if active == "production" then "balance-panel" ∷ [] else [])
        ++ ("health-panel"
            ∷ "trade-log-panel"
            ∷ (if active == "test" then "stats-panel" ∷ [] else [])))

abbrev pub set_known : String → Bool → Option Bool → Dict String Bool → Dict String Bool
set_known id shown none d = d
set_known id shown (some before) d = insert id shown d

-- A panel that is not on the screen is passed over.
abbrev pub hide_panel : Dict String Bool → String → Dict String Bool
hide_panel d id = set_known id false (lookup id d) d

abbrev pub flip : String → Option Bool → Dict String Bool → Dict String Bool
flip id none d = d
flip id (some shown) d = insert id (not shown) d

module _ {W : Type 0} where
  -- `compose` and the `on_mount` of the application and of its trade log; what the log reads of the
  -- settings and the database may raise.
  unfoldable pub mount : String → List String → Result (String × Database W) → App W
  mount active hidden read = record {
    use_utc = false;
    trade_log = load_history false read empty_panel;
    prices = record { table = []; last_prices = [] };
    displayed = foldl hide_panel (map (λ id. (id, true)) (compose active)) hidden;
  }

  -- `action_toggle_tz`, with `watch_use_utc`
  unfoldable pub toggle_tz : App W → App W
  toggle_tz a = record a {
    use_utc = not a.use_utc;
    trade_log = re_render (not a.use_utc) a.trade_log;
  }

  unfoldable pub toggle_panel : String → App W → App W
  toggle_panel id a = record a { displayed = flip id (lookup id a.displayed) a.displayed }

module _ {W : Type 0} ⦃fl : Float W⦄ where
  -- A round of `_consume_prices` or `_consume_trades`, or a key.
  unfoldable pub handle_event : String → App W → ScreenEvent W → App W
  handle_event active a tz_toggled = toggle_tz a
  handle_event active a (panel_toggled id) = toggle_panel id a
  handle_event active a (price_came tick) = record a {
    prices = update_tick a.use_utc a.prices tick;
  }
  handle_event active a (trade_came item) = record a {
    trade_log = append_trade active a.use_utc item a.trade_log;
  }

  unfoldable pub handle_events : String → App W → List (ScreenEvent W) → App W
  handle_events active = foldl (handle_event active)
