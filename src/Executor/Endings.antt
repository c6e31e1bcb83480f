-- ===== src/Executor/Endings.antt =====
-- cryptotrader/executor.py: the ways a call of `execute` can end, and what recording a trade does.
use cryptotrader.Prelude.{
  ◌==◌, ◌⊎◌, string_eq, pair_eq, Option, none, some, Result, ok, raise, Error, ◌≡◌, refl, arith,
  true, false, Bool, if◌then◌else◌, [], ◌∷◌, ◌++◌, io_error,
}
use cryptotrader.Prelude.Dict.{lookup}
use cryptotrader.Float.{Float}
use cryptotrader.Models.{Trade, side_eq}
use cryptotrader.Database.{Database, insert_trade}
use cryptotrader.Strategy.{CurrencyConfig}
use cryptotrader.Desk.{Desk, Request, market_order, acts}
use cryptotrader.Maker.{is_resting}
use cryptotrader.Executor.{
  ℕ, limit_of, recorded, Settings, Answers, Order, loss_limit_hit, maker_eligible, record_trade,
}
use cryptotrader.Executor.Sizing.{Still, Allowed}

module _ {W C : Type 0} ⦃fl : Float W⦄ (cfg : Settings W) (ans : Answers W) (o : Order W C) where
  -- What the exchange was asked on the way from `d` to `e`: for one order in production, beside a
  -- reading of the balance, and else nothing.
  abbrev pub Asked : Desk W C → Desk W C → Request W → Type 0
  Asked d e r =
      ((cfg.active == "production") ≡ true → acts e.sent ≡ acts d.sent ++ r ∷ [])
      × ((cfg.active == "production") ≡ false → e.sent ≡ d.sent)

  -- The calls that place the order.
  abbrev pub IsOrder : W → Request W → Type 0
  IsOrder q r = (r ≡ market_order o.pair o.side q) ⊎ (r ≡ limit_of cfg o q)

  -- The order rests: a maker entry under the key of the order, no trade.
  pub record Rests (d e : Desk W C) (q : W) : Type 0 where
    pub was_eligible : maker_eligible cfg o d ≡ true
    pub same_trades : e.db.trades ≡ d.db.trades
    pub asked : Asked d e (limit_of cfg o q)
    pub resting : is_resting o.pair o.strategy e ≡ true
    pub book : e.has_book ≡ true
    pub same_called : e.called ≡ d.called

  -- The order is in the trade log.
  pub record Fills (d e : Desk W C) (q : W) (t : Trade W) : Type 0 where
    pub pair : t.pair ≡ o.pair
    pub side : t.side ≡ o.side
    pub strategy : t.strategy ≡ o.strategy
    pub quantity : t.quantity ≡ q
    pub recorded : e.db.trades ≡ d.db.trades ++ t ∷ []
    pub asked : Asked d e (market_order o.pair o.side q)
    pub same_resting : e.resting ≡ d.resting
    pub same_called : e.called ≡ d.called

  pub data Outcome (d : Desk W C) : Result (Option (Trade W)) × Desk W C → Type 0 where
    -- refused or broken off with no order asked for, and nothing traded or rested
    declined : (e : Desk W C) → Still (cfg.active == "production") d e → Outcome d (ok none, e)
    stopped :
        (err : Error) (e : Desk W C)
        → Still (cfg.active == "production") d e
        → Outcome d (raise err, e)
    rested :
        (c : CurrencyConfig W) (q : W) (e : Desk W C)
        → lookup o.pair cfg.currencies ≡ some c
        → Allowed cfg ans o c d.db q
        → loss_limit_hit cfg ans d ≡ false
        → Rests d e q
        → Outcome d (ok none, e)
    filled :
        (c : CurrencyConfig W) (q : W) (t : Trade W) (e : Desk W C)
        → lookup o.pair cfg.currencies ≡ some c
        → Allowed cfg ans o c d.db q
        → loss_limit_hit cfg ans d ≡ false
        → Fills d e q t
        → Outcome d (ok (some t), e)
    -- in production: the exchange was asked for the order, and whether it took it or not, no trade
    -- and no entry shows it, for the call raised or the trade could not be recorded
    unrecorded :
        (c : CurrencyConfig W) (q : W) (r : Request W) (err : Error) (e : Desk W C)
        → lookup o.pair cfg.currencies ≡ some c
        → Allowed cfg ans o c d.db q
        → loss_limit_hit cfg ans d ≡ false
        → (cfg.active == "production") ≡ true
        → IsOrder q r
        → acts e.sent ≡ acts d.sent ++ r ∷ []
        → e.db ≡ d.db
        → e.resting ≡ d.resting
        → e.called ≡ d.called
        → Outcome d (raise err, e)

  pub data Recorded (t : Trade W) (d : Desk W C)
      : Result (Option (Trade W)) × Desk W C → Type 0 where
    kept :
        (e : Desk W C)
        → e.db.trades ≡ d.db.trades ++ t ∷ []
        → e.sent ≡ d.sent
        → e.resting ≡ d.resting
        → e.called ≡ d.called
        → Recorded t d (ok (some t), e)
    lost : (err : Error) → Recorded t d (raise err, d)

  recorded-Recorded :
      (t : Trade W) (d : Desk W C) (r : Result (ℕ × Database W))
      → ((n : ℕ) (db : Database W) → r ≡ ok (n, db) → db.trades ≡ d.db.trades ++ t ∷ [])
      → Recorded t d (recorded t r d)
  recorded-Recorded t d (raise e) h = lost e
  recorded-Recorded t d (ok (n, db)) h = kept _ (h n db refl) refl refl refl

  insert_trade-trades :
      (db e : Database W) (t : Trade W) (n : ℕ) (writable : Bool)
      → (if writable then insert_trade db t else raise io_error) ≡ ok (n, e)
      → e.trades ≡ db.trades ++ t ∷ []
  unfolding insert_trade
  insert_trade-trades db e t n writable h = ground arith

  pub record_trade-Recorded : (t : Trade W) (d : Desk W C) → Recorded t d (record_trade ans t d)
  unfolding record_trade
  record_trade-Recorded t d =
      recorded-Recorded t d (if ans.trade_writable then insert_trade d.db t else raise io_error)
        λ n e. insert_trade-trades d.db e t n ans.trade_writable
