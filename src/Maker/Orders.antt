-- ===== src/Maker/Orders.antt =====
-- cryptotrader/maker.py: what a pass over the orders at the exchange leaves of the book, and the
-- account of a tick, of the passing of time and of such a pass.
use cryptotrader.Prelude.{
  Result, ok, raise, String, Bool, true, false, ◌≡◌, refl, ap, ◌∙◌, arith, if◌then◌else◌, ◌==◌,
  string_eq, pair_eq, Option, none, some, filter,
}
use cryptotrader.Prelude.Dict.{lookup, keys, IsDict}
use cryptotrader.Float.{Float, gt, le, lit}
use cryptotrader.Models.{PriceTick}
use cryptotrader.Models.Time.{DateTime, not_after}
use cryptotrader.Desk.{Desk, RestingEntry}
use cryptotrader.Maker.{Writes, fill, no_fill, tick_entry, on_tick, expire_entry}
use cryptotrader.Maker.Settle.{
  reconcile, reconcile_entry, OrderRecord, Status, closed, canceled, expired, working, settle_order,
  settle_answer, query_order,
}
use cryptotrader.Maker.Loop.{Resolves, left, elem-keys, each_key-lookup, each_key-IsDict}
use cryptotrader.Maker.Ticks.{tick_resolves, tick_entry-Resolves, left-keys}
use cryptotrader.Maker.Account.{length-log_call, Accounts, Backed, Settled, each_key-Settled}

abbrev pub status_resolves : Status → Bool → Bool
status_resolves closed late = true
status_resolves canceled late = true
status_resolves expired late = true
status_resolves working late = late

abbrev pub answer_resolves : {W : Type 0} → Result (OrderRecord W) → Bool → Bool
answer_resolves (ok rec) late = status_resolves rec.status late
answer_resolves (raise e) late = false

abbrev pub txid_resolves :
    {W : Type 0} → (String → Result (OrderRecord W)) → Option String → Bool → Bool
txid_resolves order_status none late = false
txid_resolves order_status (some txid) late =
    if txid == "" then false else answer_resolves (order_status txid) late

-- Whether a pass resolves an entry: its order is done with, or works on past its deadline. An entry
-- without an order id, and one whose query failed, stays.
abbrev pub order_resolves :
    {W C : Type 0} → (String → Result (OrderRecord W)) → DateTime → RestingEntry W C → Bool
order_resolves order_status now e = txid_resolves order_status e.txid (not_after e.deadline now)

-- Whether the record tells of a fill: of a closed order, or of a part of one that is cancelled or
-- expired.
abbrev pub status_fills : Status → Bool → Bool
status_fills closed traded = true
status_fills canceled traded = traded
status_fills expired traded = traded
status_fills working traded = false

module _ {W : Type 0} ⦃fl : Float W⦄ where
  abbrev pub record_fills : OrderRecord W → Bool
  record_fills rec = status_fills rec.status (gt rec.vol_exec (lit 0))

  abbrev pub answer_fills : Result (OrderRecord W) → Bool
  answer_fills (ok rec) = record_fills rec
  answer_fills (raise e) = false

  abbrev pub order_fills :
      {C : Type 0} → (String → Result (OrderRecord W)) → RestingEntry W C → Bool
  order_fills order_status e = elim e.txid [ none ↦ false | some t ↦ answer_fills (order_status t) ]

  -- The price is at the limit or under it.
  abbrev pub at_limit : {C : Type 0} → W → RestingEntry W C → Bool
  at_limit price e = le price e.limit_price

module _ {W C : Type 0} ⦃fl : Float W⦄ where
  settle_order-Resolves :
      (writes : Writes) (now : DateTime) (txid : String) (rec : OrderRecord W)
      → Resolves {C = C}
          (λ e. status_resolves rec.status (not_after e.deadline now))
          (settle_order writes now txid rec)
  unfolding settle_order fill no_fill
  settle_order-Resolves writes now txid rec k e d = ground arith

  settle_order-Accounts :
      (writes : Writes) (now : DateTime) (txid : String) (rec : OrderRecord W)
      → Accounts {C = C}
          (λ e. status_resolves rec.status (not_after e.deadline now))
          (λ e. record_fills rec)
          (settle_order writes now txid rec)
  unfolding settle_order fill no_fill
  settle_order-Accounts writes now txid rec k e d h =
      (ground arith, ground (arith, length-log_call e.on_reject d.called))

  -- Both facts of a body, at each answer and each order id.
  answer-Resolves :
      (writes : Writes) (now : DateTime) (txid : String) (r : Result (OrderRecord W))
      → Resolves {C = C}
          (λ e. answer_resolves r (not_after e.deadline now))
          (settle_answer writes now txid r)
  answer-Resolves writes now txid (raise x) k e d = refl
  answer-Resolves writes now txid (ok rec) k e d = settle_order-Resolves writes now txid rec k e d

  answer-Accounts :
      (writes : Writes) (now : DateTime) (txid : String) (r : Result (OrderRecord W))
      → Accounts {C = C}
          (λ e. answer_resolves r (not_after e.deadline now))
          (λ e. answer_fills r)
          (settle_answer writes now txid r)
  answer-Accounts writes now txid (raise x) k e d h = (refl, refl)
  answer-Accounts writes now txid (ok rec) k e d h =
      settle_order-Accounts writes now txid rec k e d h

  module _ (writes : Writes) (order_status : String → Result (OrderRecord W)) (now : DateTime) where
    query-Resolves :
        (t : Option String)
        → Resolves {C = C}
            (λ e. txid_resolves order_status t (not_after e.deadline now))
            (query_order writes order_status now t)
    query-Resolves none k e d = refl
    query-Resolves (some txid) k e d =
        ground (arith, answer-Resolves writes now txid (order_status txid) k e d)

    query-Accounts :
        (t : Option String)
        → Accounts {C = C}
            (λ e. txid_resolves order_status t (not_after e.deadline now))
            (λ e. elim t [ none ↦ false | some u ↦ answer_fills (order_status u) ])
            (query_order writes order_status now t)
    query-Accounts none k e d h = (refl, refl)
    query-Accounts (some txid) k e d h =
        let (fills, calls) = answer-Accounts writes now txid (order_status txid) k e d h in
        (ground (arith, fills), ground (arith, calls))

    reconcile_entry-Resolves :
        Resolves {C = C} (order_resolves order_status now) (reconcile_entry writes order_status now)
    unfolding reconcile_entry
    reconcile_entry-Resolves k e d = query-Resolves e.txid k e d

    reconcile_entry-Accounts :
        Accounts {C = C}
          (order_resolves order_status now)
          (order_fills order_status)
          (reconcile_entry writes order_status now)
    unfolding reconcile_entry
    reconcile_entry-Accounts k e d h = query-Accounts e.txid k e d h

    pub reconcile-lookup :
        (d : Desk W C) (j : String × String)
        → IsDict d.resting
        → let after = (reconcile writes order_status now d).1.resting in
          (lookup j after ≡ left (order_resolves order_status now) true (lookup j d.resting))
          × IsDict after
    unfolding reconcile
    reconcile-lookup d j v =
        let res = order_resolves order_status now in
        let body = reconcile_entry writes order_status now in
        (
          each_key-lookup res body reconcile_entry-Resolves j (keys d.resting) d v
              ∙ ap (λ b. left res b (lookup j d.resting)) (elem-keys j d.resting)
              ∙ left-keys res true (lookup j d.resting),
          each_key-IsDict res body reconcile_entry-Resolves (keys d.resting) d v,
        )

  tick_entry-Accounts :
      (writes : Writes) (price : W) (now : DateTime)
      → Accounts {C = C} (tick_resolves price now) (at_limit price) (tick_entry writes price now)
  unfolding tick_entry fill no_fill
  tick_entry-Accounts writes price now k e d h =
      (ground arith, ground (arith, length-log_call e.on_reject d.called))

  expire_entry-Accounts :
      (writes : Writes) (now : DateTime)
      → Accounts {C = C}
          (λ e. not_after e.deadline now)
          (λ e. false)
          (expire_entry {W = W} writes now)
  unfolding expire_entry no_fill
  expire_entry-Accounts writes now k e d h =
      (ground arith, ground (arith, length-log_call e.on_reject d.called))

  pub entries_accounted :
      (writes : Writes) (tick : PriceTick W) (order_status : String → Result (OrderRecord W))
      (now : DateTime) (d : Desk W C)
      → Backed d.resting
      → let ticked = on_tick writes tick now d in
        let passed = reconcile writes order_status now d in
        Settled (at_limit tick.last) d ticked
        × Backed ticked.1.resting
        × Settled (order_fills order_status) d passed
        × Backed passed.1.resting
  unfolding on_tick reconcile
  entries_accounted writes tick order_status now d v =
      let ks = filter (λ k. k.0 == tick.pair) (keys d.resting) in
      let (n, b) =
        each_key-Settled (tick_resolves tick.last now) (at_limit tick.last)
          (tick_entry writes tick.last now) (tick_entry-Resolves writes tick.last now)
          (tick_entry-Accounts writes tick.last now) ks d v in
      let (m, c) =
        each_key-Settled (order_resolves order_status now) (order_fills order_status)
          (reconcile_entry writes order_status now)
          (reconcile_entry-Resolves writes order_status now)
          (reconcile_entry-Accounts writes order_status now) (keys d.resting) d v in
      (n, b, m, c)
