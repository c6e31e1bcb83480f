-- ===== src/Maker.antt =====
-- cryptotrader/maker.py: the book of resting entries. The clock, the answers of the exchange and
-- whether a write to the database succeeds are arguments. Its `reconcile` is in Settle.
pub mod Keys
pub mod Loop
pub mod Ticks
pub mod Settle
pub mod Orders
pub mod Account
mod Tests
use cryptotrader.Prelude.{
  String, Bool, true, false, ◌==◌, string_eq, pair_eq, if◌then◌else◌, Option, none, some, List, [],
  ◌∷◌, ◌++◌, Result, ok, raise, filter, ◌||◌,
}
use cryptotrader.Prelude.Dict.{lookup, contains, insert, erase, keys}
use cryptotrader.Float.{Float, ◌-◌, ◌*◌, lit, le, lt, gt}
use cryptotrader.Models.{
  PriceTick, Trade, RejectedOrder, LogItem, traded, rejected, Side, maker_no_fill,
}
use cryptotrader.Models.Time.{DateTime, not_after}
use cryptotrader.Database.{Database, insert_trade, insert_rejected_order}
use cryptotrader.Desk.{Desk, RestingEntry, Request, cancel, put_or_drop}

-- Which database writes succeed, by the key of the entry.
abbrev pub Writes : Type 0
Writes = String × String → Bool

abbrev pub log_call : {C : Type 0} → Option C → List C → List C
log_call none cs = cs
log_call (some c) cs = cs ++ c ∷ []

module _ {W : Type 0} where
  -- A failed insertion is logged and swallowed, that of a duplicate too.
  unfoldable pub try_insert_trade : Bool → Trade W → Database W → Database W
  try_insert_trade writable t db =
      if writable then elim (insert_trade db t) [ ok r ↦ r.1 | raise e ↦ db ] else db

  unfoldable pub try_insert_rejected : Bool → RejectedOrder W → Database W → Database W
  try_insert_rejected writable r db = if writable then (insert_rejected_order db r).1 else db

module _ {W C : Type 0} where
  abbrev pub key_of : RestingEntry W C → String × String
  key_of e = (e.pair, e.strategy)

  unfoldable pub is_resting : String → String → Desk W C → Bool
  is_resting pair strategy d = contains (pair, strategy) d.resting

  -- `add`
  unfoldable pub add : RestingEntry W C → Desk W C → Desk W C
  add entry d =
      if contains (key_of entry) d.resting
      then record d { called = log_call entry.on_reject d.called }
      else record d { resting = insert (key_of entry) entry d.resting }

  -- `_emit`
  abbrev pub emit : LogItem W → Desk W C → Desk W C
  emit item d = record d { tui = put_or_drop d.tui item }

  abbrev pub fill_trade : RestingEntry W C → W → W → DateTime → Trade W
  fill_trade entry price quantity now = record {
    pair = entry.pair;
    side = Side.buy;
    price = price;
    quantity = quantity;
    mode = entry.mode;
    strategy = entry.strategy;
    timestamp = now;
    pnl = none;
    txid = entry.txid;
    band_width = entry.band_width;
  }

  -- `_fill`, at the quantity that it is given or else the entry's own
  unfoldable pub fill :
      Writes → RestingEntry W C → W → Option W → DateTime → Desk W C → Trade W × Desk W C
  fill writes entry price quantity now d =
      let t = fill_trade entry price (elim quantity [ none ↦ entry.quantity | some q ↦ q ]) now in
      (t, emit (traded t) (record d { db = try_insert_trade (writes (key_of entry)) t d.db }))

  abbrev pub no_fill_order : RestingEntry W C → DateTime → RejectedOrder W
  no_fill_order entry now = record {
    pair = entry.pair;
    side = Side.buy;
    price = entry.limit_price;
    quantity = entry.quantity;
    reason = maker_no_fill;
    mode = entry.mode;
    strategy = entry.strategy;
    timestamp = now;
  }

  -- `_no_fill`
  unfoldable pub no_fill : Writes → RestingEntry W C → DateTime → Desk W C → Desk W C
  no_fill writes entry now d =
      let r = no_fill_order entry now in
      record (emit (rejected r) d) {
        db = try_insert_rejected (writes (key_of entry)) r d.db;
        called = log_call entry.on_reject d.called;
      }

  abbrev pub drop_key : String × String → Desk W C → Desk W C
  drop_key key d = record d { resting = erase key d.resting }

  abbrev pub at_key :
      (String × String → RestingEntry W C → Desk W C → List (Trade W) × Desk W C)
      → String × String
      → Desk W C
      → Option (RestingEntry W C)
      → List (Trade W) × Desk W C
  at_key body key d none = ([], d)
  at_key body key d (some entry) = body key entry d

  -- The loop over a list of keys; a key that is gone is passed over.
  unfoldable pub each_key :
      (String × String → RestingEntry W C → Desk W C → List (Trade W) × Desk W C)
      → List (String × String)
      → Desk W C
      → List (Trade W) × Desk W C
  each_key body [] d = ([], d)
  each_key body (key ∷ ks) d =
      let (filled, d') = at_key body key d (lookup key d.resting) in
      let (later, d'') = each_key body ks d' in (filled ++ later, d'')

module _ {W C : Type 0} ⦃fl : Float W⦄ where
  unfoldable pub drift_pct : RestingEntry W C → W → W
  drift_pct entry price =
      if le entry.limit_price (lit 0)
      then lit 0
      else fl.quot (price - entry.limit_price) entry.limit_price * lit 100

  -- The body of the loop in `on_tick`: fill, else drift, else deadline, else the entry rests on.
  unfoldable pub tick_entry :
      Writes
      → W
      → DateTime
      → String × String
      → RestingEntry W C
      → Desk W C
      → List (Trade W) × Desk W C
  tick_entry writes last now key entry d =
      if le last entry.limit_price
      then (let (t, d') = fill writes entry entry.limit_price none now (drop_key key d) in
          (t ∷ [], d'))
      else if gt (drift_pct entry last) entry.max_drift_pct || not_after entry.deadline now
      then ([], no_fill writes entry now (drop_key key d))
      else ([], d)

  unfoldable pub on_tick : Writes → PriceTick W → DateTime → Desk W C → List (Trade W) × Desk W C
  on_tick writes tick now d =
      each_key (tick_entry writes tick.last now) (filter (λ k. k.0 == tick.pair) (keys d.resting)) d

  -- `expire_due`
  unfoldable pub expire_entry :
      Writes → DateTime → String × String → RestingEntry W C → Desk W C → List (Trade W) × Desk W C
  expire_entry writes now key entry d =
      if not_after entry.deadline now
      then ([], no_fill writes entry now (drop_key key d))
      else ([], d)

  unfoldable pub expire_due : Writes → DateTime → Desk W C → Desk W C
  expire_due writes now d = (each_key (expire_entry writes now) (keys d.resting) d).1
