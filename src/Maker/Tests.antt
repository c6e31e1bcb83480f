-- ===== src/Maker/Tests.antt =====
-- Runs of cryptotrader/maker.py, and the theorems about it at concrete inputs.
use cryptotrader.Prelude.{String, ◌≡◌, refl, true, ◌==◌, some, Result, ok, string_eq, pair_eq}
use cryptotrader.Prelude.Dict.{lookup, IsDict}
use cryptotrader.Prelude.Int.{ℤ, pos}
use cryptotrader.Float.Cents.{cents_float}
use cryptotrader.Models.{PriceTick}
use cryptotrader.Maker.{Writes, on_tick}
use cryptotrader.Maker.Settle.{OrderRecord, canceled, reconcile}
use cryptotrader.Maker.Loop.{left}
use cryptotrader.Maker.Ticks.{tick_resolves, on_tick-lookup}
use cryptotrader.Maker.Account.{Backed, Settled}
use cryptotrader.Maker.Orders.{
  order_fills, at_limit, order_resolves, reconcile-lookup, entries_accounted,
}
use cryptotrader.Samples.{at, tick_at, entry, busy_desk}

abbrev all_written : Writes
all_written k = true

abbrev low_tick : PriceTick ℤ
low_tick = tick_at (at 10 5) 99

abbrev ema_key : String × String
ema_key = ("BTC/USD", "ema")

-- The exchange cancelled the order with one unit of it done.
abbrev partly : String → Result (OrderRecord ℤ)
partly txid = ok (record { status = canceled; vol_exec = pos 1; price = pos 98 })

busy-IsDict : IsDict busy_desk.resting
busy-IsDict = (refl, (refl, tt))

busy-Backed : Backed busy_desk.resting
busy-Backed = (refl, (refl, tt))

on_tick-lookup_example :
    let after = (on_tick all_written low_tick (at 10 5) busy_desk).1.resting in
    (lookup ema_key after
      ≡ left (tick_resolves (pos 99) (at 10 5)) (ema_key.0 == low_tick.pair) (some (entry "ema")))
    × IsDict after
on_tick-lookup_example = on_tick-lookup all_written low_tick (at 10 5) busy_desk ema_key busy-IsDict

reconcile-lookup_example :
    let after = (reconcile all_written partly (at 10 5) busy_desk).1.resting in
    (lookup ema_key after ≡ left (order_resolves partly (at 10 5)) true (some (entry "ema")))
    × IsDict after
reconcile-lookup_example =
    reconcile-lookup all_written partly (at 10 5) busy_desk ema_key busy-IsDict

entries_accounted_example :
    let ticked = on_tick all_written low_tick (at 10 5) busy_desk in
    let passed = reconcile all_written partly (at 10 5) busy_desk in
    Settled (at_limit low_tick.last) busy_desk ticked
    × Backed ticked.1.resting
    × Settled (order_fills partly) busy_desk passed
    × Backed passed.1.resting
entries_accounted_example =
    entries_accounted all_written low_tick partly (at 10 5) busy_desk busy-Backed
