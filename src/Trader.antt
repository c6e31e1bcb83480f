-- ===== src/Trader.antt =====
-- cryptotrader/trader.py: a tick is passed to the maker book and to the strategies of its pair, and
-- every signal is resolved against what the executor did. A callback is the pair and the name of
-- the strategy whose `on_order_rejected` it is; the trader answers the calls that the book made
-- before anything reads a strategy again.
pub mod Signals
pub mod Loop
mod Tests
use cryptotrader.Prelude.{
  ℕ, String, Bool, true, false, not, ◌&&◌, ◌==◌, string_eq, if◌then◌else◌, Option, none, some, List,
  [], ◌∷◌, map, Result, ok, raise, Error, ◌>>=◌,
}
use cryptotrader.Prelude.Dict.{Dict, lookup, get_or, insert}
use cryptotrader.Float.{Float}
use cryptotrader.Models.{PriceTick, Trade, Signal}
use cryptotrader.Models.Time.{DateTime}
use cryptotrader.Database.{Database}
use cryptotrader.Desk.{Desk, Queue, put_or_drop}
use cryptotrader.Strategy.{
  Strategy, CurrencyConfig, Kind, all_strategies, get_strategy, construct, restore, name_of,
  band_width_of, evaluate, on_order_rejected, on_order_filled,
}
use cryptotrader.Maker.{Writes, is_resting, on_tick, expire_due}
use cryptotrader.Maker.Settle.{OrderRecord, reconcile}
use cryptotrader.Executor.{Settings, Answers, Order, side_of, execute}

-- A bound method `on_order_rejected`: the pair and the name of its strategy.
abbrev pub Callback : Type 0
Callback = String × String

abbrev pub done : {A : Type 0} → Result A → Result (Unit {0})
done (raise e) = raise e
done (ok a) = ok tt

module _ (W : Type 0) where
  pub record Trader : Type 0 where
    pub desk : Desk W Callback
    pub strategies : Dict String (List (Strategy W))
    pub tui_prices : Option (Queue (PriceTick W))

  -- The environment of one strategy's turn: what `feed_healthy_fn` says, true where there is none,
  -- and the answers to the executor.
  pub record Turn : Type 0 where
    pub feed_healthy : Bool
    pub answers : Answers W

module _ {W : Type 0} where
  -- A bound method is called for the strategy that it is of.
  abbrev pub answer_call : String → Strategy W → Callback → Strategy W
  answer_call pair s (p, name) = if p == pair && name == name_of s then on_order_rejected s else s

  abbrev pub answer_calls : String → List Callback → Strategy W → Strategy W
  answer_calls pair [] s = s
  answer_calls pair (c ∷ cs) s = answer_calls pair cs (answer_call pair s c)

  abbrev pub answer_all :
      List Callback → Dict String (List (Strategy W)) → Dict String (List (Strategy W))
  answer_all calls [] = []
  answer_all calls ((pair, ss) ∷ rest) =
      (pair, map (answer_calls pair calls) ss) ∷ answer_all calls rest

  -- The calls that the book made, answered.
  unfoldable pub settle_calls : Trader W → Trader W
  settle_calls t = record t {
    desk = record t.desk { called = [] };
    strategies = answer_all t.desk.called t.strategies;
  }

  -- What the executor did, told to the strategy: an exception and a refusal roll it back, an entry
  -- that rests leaves it waiting, a trade confirms it.
  unfoldable pub resolve : Result (Option (Trade W)) → Bool → Strategy W → Strategy W
  resolve (raise e) resting s = on_order_rejected s
  resolve (ok trade) true s = s
  resolve (ok none) false s = on_order_rejected s
  resolve (ok (some t)) false s = on_order_filled s

module _ {W : Type 0} ⦃fl : Float W⦄ where
  abbrev pub order_of : PriceTick W → Strategy W → Signal → Order W Callback
  order_of tick s g = record {
    side = side_of g;
    pair = tick.pair;
    price = tick.last;
    strategy = name_of s;
    band_width = band_width_of s;
    on_reject = some (tick.pair, name_of s);
  }

  -- The body of the loop over the strategies, for a signal.
  unfoldable pub on_signal :
      Settings W
      → Turn W
      → PriceTick W
      → Signal
      → Strategy W
      → Desk W Callback
      → Result (Unit {0}) × Strategy W × Desk W Callback
  on_signal cfg turn tick g s d =
      if turn.feed_healthy
      then (let (r, d') = execute cfg turn.answers (order_of tick s g) d in
          let s' = answer_calls tick.pair d'.called s in
          (
            done r,
            resolve r (d'.has_book && is_resting tick.pair (name_of s) d') s',
            record d' { called = [] },
          ))
      else (ok tt, on_order_rejected s, d)

  abbrev pub act_on :
      Settings W
      → Turn W
      → PriceTick W
      → Strategy W
      → Desk W Callback
      → Result (Strategy W × Database W × Option Signal)
      → Result (Unit {0}) × Strategy W × Desk W Callback
  act_on cfg turn tick s d (raise e) = (raise e, s, d)
  act_on cfg turn tick s d (ok (t, db', none)) = (ok tt, t, record d { db = db' })
  act_on cfg turn tick s d (ok (t, db', some g)) =
      on_signal cfg turn tick g t (record d { db = db' })

  unfoldable pub run_strategy :
      Settings W
      → Turn W
      → PriceTick W
      → Strategy W
      → Desk W Callback
      → Result (Unit {0}) × Strategy W × Desk W Callback
  run_strategy cfg turn tick s d = act_on cfg turn tick s d (evaluate s d.db tick)

  -- The loop over the strategies of a pair, which an exception ends; `turns` by the name.
  unfoldable pub run_strategies :
      Settings W
      → (String → Turn W)
      → PriceTick W
      → List (Strategy W)
      → Desk W Callback
      → Result (Unit {0}) × List (Strategy W) × Desk W Callback
  run_strategies cfg turns tick [] d = (ok tt, [], d)
  run_strategies cfg turns tick (s ∷ ss) d =
      let (r, s', d') = run_strategy cfg (turns (name_of s)) tick s d in
      let rest = run_strategies cfg turns tick ss d' in
      elim r [ raise e ↦ (raise e, s' ∷ ss, d') | ok _ ↦ (rest.0, s' ∷ rest.1, rest.2) ]

  -- In test mode the tick resolves what rests before a strategy sees it.
  unfoldable pub resolve_book : Settings W → Writes → PriceTick W → DateTime → Trader W → Trader W
  resolve_book cfg writes tick now t =
      if t.desk.has_book && not (cfg.active == "production")
      then settle_calls
          (record t { desk = expire_due writes now (on_tick writes tick now t.desk).1 })
      else t

  -- One round of `run`.
  unfoldable pub handle_tick :
      Settings W
      → Writes
      → (String → Turn W)
      → PriceTick W
      → DateTime
      → Trader W
      → Result (Unit {0}) × Trader W
  handle_tick cfg writes turns tick now t =
      let shown : Trader W = record t { tui_prices = put_or_drop t.tui_prices tick } in
      let t' = resolve_book cfg writes tick now shown in
      elim (lookup tick.pair t'.strategies) [
        | none ↦ (ok tt, t')
        | some ss ↦
            let (r, ss', d') = run_strategies cfg turns tick ss t'.desk in
            (r, record t' { desk = d'; strategies = insert tick.pair ss' t'.strategies })
      ]

  -- One pass of `reconcile_maker_entries`.
  unfoldable pub reconcile_pass :
      Settings W → Writes → (String → Result (OrderRecord W)) → DateTime → Trader W → Trader W
  reconcile_pass cfg writes order_status now t =
      if t.desk.has_book && cfg.active == "production"
      then settle_calls (record t { desk = (reconcile writes order_status now t.desk).1 })
      else t

module _ {W : Type 0} where
  -- `Trader.__init__`: every class in test mode, else the class that the pair names.
  unfoldable pub build :
      String → Database W → String × CurrencyConfig W → Result (String × List (Strategy W))
  build active db (pair, c) =
      let made : Result (List (Strategy W)) =
        if active == "test"
        then ok (map (λ k. construct k c) all_strategies)
        else (get_strategy c.strategy >>= λ k. ok (construct k c ∷ [])) in
      made >>= λ ss. ok (pair, map (λ s. restore s db pair active) ss)

  unfoldable pub build_all :
      String
      → Database W
      → Dict String (CurrencyConfig W)
      → Result (Dict String (List (Strategy W)))
  build_all active db [] = ok []
  build_all active db (p ∷ ps) =
      build active db p >>= λ b. build_all active db ps >>= λ bs. ok (b ∷ bs)
