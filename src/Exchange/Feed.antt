-- ===== src/Exchange/Feed.antt =====
-- cryptotrader/exchange/kraken_ws.py: the class `KrakenWebSocket`, as a machine that the event loop
-- drives. A message is a JSON object, or no JSON. The library `websockets`, the clocks and the sleeps
-- enter as events: what they report, and that a sleep is over. A task that is cancelled ends before
-- anything else that the machine does.
pub mod Window
pub mod Machine
pub mod Stop
mod Tests
use Prim.Native.Nat.{◌^◌, ◌+◌}
use cryptotrader.Prelude.{
  ℕ, suc, String, Bool, true, false, ◌&&◌, ◌||◌, ltb, nat_beq, ◌==◌, string_eq, if◌then◌else◌,
  Option, none, some, List, [], ◌∷◌, ◌++◌, map, drop, Result, ok, raise, key_error, or_raise, ◌>>=◌,
}
use cryptotrader.Prelude.Dict.{Dict, get_or}
use cryptotrader.Float.{Float, ◌-◌, lit, lt, gt}
use cryptotrader.Models.{PriceTick}
use cryptotrader.Models.Time.{DateTime}
use cryptotrader.Desk.{Queue, is_full}

abbrev pub ws_symbol_map : Dict String String
ws_symbol_map = ("XDG/USD", "DOGE/USD") ∷ []

abbrev pub ws_symbol_reverse : Dict String String
ws_symbol_reverse = map (λ p. (p.1, p.0)) ws_symbol_map

-- The symbols of the subscription.
unfoldable pub subscription : List String → List String
subscription = map λ p. get_or p p ws_symbol_map

-- `put_nowait`, with `none` for QueueFull, and the rest after `get_nowait`.
abbrev pub put_nowait : {A : Type 0} → Queue A → A → Option (Queue A)
put_nowait q a = if is_full q then none else some (record q { items = q.items ++ a ∷ [] })

abbrev pub evict_oldest : {A : Type 0} → Queue A → Queue A
evict_oldest q = record q { items = drop 1 q.items }

abbrev pub or_else : {A : Type 0} → Option A → A → A
or_else none b = b
or_else (some a) b = a

-- A full queue loses its oldest item for the new one.
unfoldable pub put_newest : {A : Type 0} → Queue A → A → Queue A
put_newest q a = or_else (put_nowait q a) (or_else (put_nowait (evict_oldest q) a) (evict_oldest q))

pub data Phase : Type 0 where
  -- before and during `websockets.connect`, or under the receive task
  connecting receiving : Phase
  -- the sleep of a rate limit, and the sleep of so many seconds before the next attempt
  cooling : Phase
  pausing : ℕ → Phase
  finished : Phase

abbrev pub is_text : Option String → String → Bool
is_text none s = false
is_text (some t) s = t == s

-- `min(2 ** self._backoff_attempt, 60)`
unfoldable pub pause_seconds : ℕ → ℕ
pause_seconds attempt = if ltb 60 (2 ^ attempt) then 60 else 2 ^ attempt

module _ (W : Type 0) where
  -- An item of a message. A field is missing, or is what `float` makes of it.
  pub record Item : Type 0 where
    pub symbol : Option String
    pub bid : Option (Result W)
    pub ask : Option (Result W)
    pub last : Option (Result W)
    -- the two clocks when it is read: `datetime.now(UTC)` and that of the event loop
    pub stamp : DateTime
    pub loop_time : W

  -- The text of a message: no JSON, or an object with its `channel`, `type` and `data`.
  pub data Message : Type 0 where
    no_json : Message
    object : Option String → Option String → List Item → Message

  pub record Feed : Type 0 where
    pub queue : Queue (PriceTick W)
    pub last_tick_time : W
    pub running : Bool
    pub backoff_attempt : ℕ
    pub phase : Phase

-- How an attempt or a session ends, but by a cancellation.
pub data SessionEnd : Type 0 where
  -- the receive task returns
  returned : SessionEnd
  timed_out : SessionEnd
  -- ConnectionClosed, with the code that was received
  closed : Option ℕ → SessionEnd
  -- InvalidStatus
  bad_status : ℕ → SessionEnd
  failed : SessionEnd

pub data Event (W : Type 0) : Type 0 where
  -- the subscription is sent, at a time of the loop's clock
  connected : W → Event W
  ended : SessionEnd → Event W
  arrived : Message W → Event W
  -- a sleep of the connect loop is over
  slept : Event W
  -- the watchdog's sleep is over
  watched : W → Event W
  stopped : Event W

module _ {W : Type 0} where
  abbrev pub number : Option (Result W) → Result W
  number v = or_raise key_error v >>= λ r. r

  unfoldable pub read_item : Item W → Result (PriceTick W)
  read_item i = or_raise key_error i.symbol >>= λ symbol. number i.bid >>= λ bid.
      number i.ask >>= λ ask. number i.last >>= λ last. ok (record {
        pair = get_or symbol symbol ws_symbol_reverse;
        bid = bid;
        ask = ask;
        last = last;
        timestamp = i.stamp;
      })

  -- The body of the loop over the items. What `read_item` raises is logged.
  abbrev pub publish : Result (PriceTick W) → W → Feed W → Feed W
  publish (raise e) now f = f
  publish (ok tick) now f = record f {
    queue = put_newest f.queue tick;
    last_tick_time = now;
    backoff_attempt = 0;
  }

  unfoldable pub publish_all : List (Item W) → Feed W → Feed W
  publish_all [] f = f
  publish_all (i ∷ is) f = publish_all is (publish (read_item i) i.loop_time f)

  unfoldable pub dispatch : Message W → Feed W → Feed W
  dispatch no_json f = f
  dispatch (object channel kind items) f =
      if is_text channel "ticker" && (is_text kind "snapshot" || is_text kind "update")
      then publish_all items f
      else f

  -- The end of a round of `_connect_loop`, and the top of the next.
  abbrev pub end_round : Feed W → Feed W
  end_round f = record f {
    phase = if f.running then pausing (pause_seconds f.backoff_attempt) else finished;
  }

  abbrev pub next_round : Feed W → Feed W
  next_round f = record f { phase = if f.running then connecting else finished }

  -- The handlers of `_connect_loop`.
  unfoldable pub on_end : SessionEnd → Feed W → Feed W
  on_end returned f = end_round f
  on_end timed_out f = end_round f
  on_end (closed none) f = end_round f
  on_end (closed (some code)) f =
      end_round (if nat_beq code 1000 then record f { backoff_attempt = 0 } else f)
  on_end (bad_status code) f =
      if nat_beq code 429 then record f { phase = cooling } else end_round f
  on_end failed f = end_round f

module _ {W : Type 0} ⦃fl : Float W⦄ where
  unfoldable pub new_feed : Queue (PriceTick W) → Feed W
  new_feed queue = record {
    queue = queue;
    last_tick_time = lit 0;
    running = true;
    backoff_attempt = 0;
    phase = connecting;
  }

  -- By the threshold and the loop's clock.
  unfoldable pub feed_healthy : W → W → Feed W → Bool
  feed_healthy threshold now f =
      if fl.eq f.last_tick_time (lit 0) then false else lt (now - f.last_tick_time) threshold

  -- The test of `_watchdog`.
  unfoldable pub is_stale : W → W → Feed W → Bool
  is_stale threshold now f =
      if fl.eq f.last_tick_time (lit 0) then false else gt (now - f.last_tick_time) threshold

  -- What an event does in a phase. The other events of a phase find nothing to act on.
  abbrev pub react : W → Phase → Event W → Feed W → Feed W
  react threshold connecting (connected now) f = record f {
    last_tick_time = now;
    phase = receiving;
  }
  react threshold connecting (ended e) f = on_end e f
  react threshold receiving (ended e) f = on_end e f
  react threshold receiving (arrived m) f = if f.running then dispatch m f else on_end returned f
  react threshold receiving (watched now) f = if is_stale threshold now f then end_round f else f
  react threshold receiving stopped f = end_round (record f { running = false })
  react threshold cooling slept f = end_round f
  react threshold (pausing n) slept f =
      next_round (record f { backoff_attempt = f.backoff_attempt + 1 })
  react threshold phase stopped f = record f { running = false }
  react threshold phase e f = f

  unfoldable pub feed_step : W → Event W → Feed W → Feed W
  unfolding on_end dispatch is_stale
  feed_step threshold e f = react threshold f.phase e f

  unfoldable pub steps : W → List (Event W) → Feed W → Feed W
  steps threshold [] f = f
  steps threshold (e ∷ es) f = steps threshold es (feed_step threshold e f)
