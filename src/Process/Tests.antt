-- ===== src/Process/Tests.antt =====
-- A monitor that finds two new trades, and the starts of a production host.
use cryptotrader.Prelude.{◌≡◌, ◌↔◌, ◌⊎◌, string_eq, refl, true, false, some, [], ◌∷◌}
use cryptotrader.Prelude.Int.{ℤ}
use cryptotrader.Models.{traded}
use cryptotrader.Database.{
  query_trades, query_rejected_orders, order_by, insert_by, trade_matches, order_matches,
  since_matches, until_matches, text_matches,
}
use cryptotrader.Samples.{at, bought, sold, db_of}
use cryptotrader.Process.{
  Args, Setup, monitors, trades, refuses, main, hidden_panels, Poller, poll, new_trades,
  new_rejects,
}
use cryptotrader.Process.Launch.{main_start}
use cryptotrader.Process.Poll.{poll_again}

abbrev plain : Args
plain = record {
  tui = false;
  monitor_only = false;
  hide_prices = true;
  hide_weekly = false;
  hide_balance = false;
  hide_health = true;
  hide_trades = false;
  hide_stats = false;
}

abbrev host : Setup
host = record {
  active = "production";
  kraken_api_key = "key";
  kraken_api_secret = "secret";
  lock_free = false;
}

second_instance : (main plain host).start ≡ refuses
unfolding main
second_instance = refl

panels : hidden_panels plain ≡ "price-panel" ∷ "health-panel" ∷ []
unfolding hidden_panels
panels = refl

abbrev poller : Poller ℤ
poller = record {
  last_trade_ts = at 7 0;
  last_reject_ts = at 7 0;
  trade_queue = record { maxsize = 100; items = [] };
}

delivers :
    (poll (some (db_of (sold ∷ bought ∷ []))) poller).trade_queue.items
    ≡ traded bought ∷ traded sold ∷ []
unfolding poll new_trades new_rejects query_trades query_rejected_orders order_by insert_by
    trade_matches order_matches since_matches until_matches text_matches
delivers = refl

poll_again_example :
    poll (some (db_of (sold ∷ bought ∷ []))) (poll (some (db_of (sold ∷ bought ∷ []))) poller)
    ≡ poll (some (db_of (sold ∷ bought ∷ []))) poller
poll_again_example = poll_again (db_of (sold ∷ bought ∷ [])) poller

main_start_example :
    (((main plain host).start ≡ trades) ↔ (((main plain host).lock_tried ≡ true) × (false ≡ true)))
    × (((main plain host).lock_tried ≡ true) ↔ ((false ≡ false) × (false ≡ false)))
    × (((main plain host).start ≡ monitors) ↔ (
        (false ≡ true)
        ⊎ (((main plain host).lock_tried ≡ true) × (false ≡ false) × (false ≡ true))))
main_start_example = main_start plain host
