-- ===== src/Exchange/Feed/Tests.antt =====
-- A feed with a queue of two ticks.
use cryptotrader.Prelude.{
  ℕ, String, ◌≡◌, refl, ◌≤◌, true, some, none, List, [], ◌∷◌, ◌++◌, take_last, ok, arith,
}
use cryptotrader.Prelude.Int.{ℤ, pos, ◌-ℤ◌}
use cryptotrader.Float.Cents.{cents_float}
use cryptotrader.Samples.{at, tick_at}
use cryptotrader.Exchange.Feed.{
  connecting, Feed, Item, object, Event, connected, ended, arrived, slept, watched, stopped, closed,
  timed_out, bad_status, finished, pausing, new_feed, feed_step, steps, put_newest, read_item,
  publish_all, subscription, pause_seconds, on_end, is_stale, feed_healthy,
}
use cryptotrader.Exchange.Feed.Window.{IsBounded, readable, publish_all-window}
use cryptotrader.Exchange.Feed.Machine.{IsSound, new_feed-IsSound, steps-IsSound}
use cryptotrader.Exchange.Feed.Stop.{awaited, stop_ends}

abbrev item : String → ℕ → Item ℤ
item symbol price = record {
  symbol = some symbol;
  bid = some (ok (pos price));
  ask = some (ok (pos price));
  last = some (ok (pos price));
  stamp = at 9 0;
  loop_time = pos 500;
}

-- Its middle item has no ask.
abbrev items : List (Item ℤ)
items =
    item "BTC/USD" 100
    ∷ record (item "BTC/USD" 101) { ask = none }
    ∷ item "BTC/USD" 102
    ∷ item "DOGE/USD" 103
    ∷ []

abbrev feed : Feed ℤ
feed = record {
  queue = record { maxsize = 2; items = tick_at (at 8 0) 99 ∷ [] };
  last_tick_time = pos 400;
  running = true;
  backoff_attempt = 3;
  phase = connecting;
}

subscribes : subscription ("BTC/USD" ∷ "XDG/USD" ∷ []) ≡ "BTC/USD" ∷ "DOGE/USD" ∷ []
unfolding subscription
subscribes = refl

keeps_newest :
    (publish_all items feed).queue.items
    ≡ tick_at (at 9 0) 102 ∷ record (tick_at (at 9 0) 103) { pair = "XDG/USD" } ∷ []
unfolding publish_all put_newest read_item
keeps_newest = refl

abbrev session : List (Event ℤ)
session =
    ended timed_out
    ∷ slept
    ∷ connected (pos 700)
    ∷ arrived (object (some "ticker") (some "update") items)
    ∷ ended (closed (some 1000))
    ∷ slept
    ∷ ended (bad_status 429)
    ∷ []

pauses : (feed_step (pos 60) (ended timed_out) feed).phase ≡ pausing 8
unfolding feed_step on_end pause_seconds
pauses = refl

-- The docstring of `feed_healthy` promises a tick within the window; a new connection has none.
healthy_without_tick :
    feed_healthy (pos 60) (pos 701) (feed_step (pos 60) (connected (pos 700)) (new_feed feed.queue))
    ≡ true
unfolding feed_healthy feed_step new_feed ◌-ℤ◌
healthy_without_tick = refl

publish_all-window_example :
    IsBounded (publish_all items feed).queue
    × ((publish_all items feed).queue.items ≡ take_last 2 (feed.queue.items ++ readable items))
publish_all-window_example = publish_all-window items feed (λ h. omega arith)

steps-IsSound_example : IsSound (steps (pos 60) session (new_feed feed.queue))
steps-IsSound_example =
    steps-IsSound (pos 60) session (new_feed feed.queue)
      (new_feed-IsSound feed.queue (λ h. omega arith))

abbrev ending : List (Event ℤ)
ending = connected (pos 800) ∷ watched (pos 801) ∷ ended (bad_status 429) ∷ slept ∷ []

enough : 3 ≤ awaited (pos 60) ending (feed_step (pos 60) stopped feed)
unfolding feed_step on_end is_stale ◌-ℤ◌
enough = omega arith

stop_ends_example : (steps (pos 60) ending (feed_step (pos 60) stopped feed)).phase ≡ finished
stop_ends_example = stop_ends (pos 60) feed ending enough
