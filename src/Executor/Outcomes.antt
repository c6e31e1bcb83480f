-- ===== src/Executor/Outcomes.antt =====
-- cryptotrader/executor.py: every call of `execute` ends in one of the ways of Endings.
use cryptotrader.Prelude.{
  ap, if-elim, ◌∙◌, String, ◌==◌, string_eq, pair_eq, Option, none, some, Result, ok, raise, ◌≡◌,
  refl, arith, inl, inr, filter-append, true, false, [], ◌∷◌, ◌++◌, key_error, runtime_error,
}
use cryptotrader.Prelude.Dict.{contains, lookup}
use cryptotrader.Float.{Float}
use cryptotrader.Models.{Trade, daily_loss_limit, side_eq}
use cryptotrader.Database.{Database}
use cryptotrader.Strategy.{CurrencyConfig}
use cryptotrader.Desk.{Request, acts, is_act, Desk, pure, ◌>>=◌, ◌>>◌, market_order}
use cryptotrader.Maker.Keys.{add-has_book, add-called, add-is_resting}
use cryptotrader.Maker.{is_resting}
use cryptotrader.Executor.{
  limit_of, with_config, place_live, rest_posted, Settings, Answers, Order, reject, size_order,
  loss_limit_hit, maker_eligible, entry_of, rest_maker_entry, record_trade, place, trade_of, submit,
  execute,
}
use cryptotrader.Executor.Sizing.{
  after_reading, sized_read, still, reject-Still, Allowed, Sized, sized, refused, capped,
  size_order-Sized,
}
use cryptotrader.Executor.Endings.{
  Outcome, declined, stopped, rested, filled, unrecorded, Recorded, kept, lost,
  record_trade-Recorded,
}
use cryptotrader.Executor.Reading.{Outcome-after_reading}

paper_mode : (s : String) → (s == "test") ≡ true → (s == "production") ≡ false
paper_mode s h = ap (λ u. u == "production") ((string_eq.beq_iff s "test").0 h)

-- The call of an order is one of the acts.
abbrev asked_for : {W C : Type 0} → Request W → Desk W C → Desk W C
asked_for r d = record d { sent = d.sent ++ r ∷ [] }

module _ {W C : Type 0} ⦃fl : Float W⦄ (cfg : Settings W) (ans : Answers W) (o : Order W C) where
  module _ (c : CurrencyConfig W) (q : W) (d : Desk W C)
      (known : lookup o.pair cfg.currencies ≡ some c) (fits : Allowed cfg ans o c d.db q) where
    -- The order's own trade, whatever order id it carries.
    record Own (t : Trade W) : Type 0 where
      pair : t.pair ≡ o.pair
      side : t.side ≡ o.side
      strategy : t.strategy ≡ o.strategy
      quantity : t.quantity ≡ q

    paper-Outcome :
        (t : Trade W) (r : Result (Option (Trade W)) × Desk W C)
        → Own t
        → loss_limit_hit cfg ans d ≡ false
        → (cfg.active == "production") ≡ false
        → Recorded cfg ans o t d r
        → Outcome cfg ans o d r
    paper-Outcome t r own clear paper (kept e log sent rest calls) =
        filled c q t e known fits clear (record {
          pair = own.pair;
          side = own.side;
          strategy = own.strategy;
          quantity = own.quantity;
          recorded = log;
          asked = (λ live. cc, λ _. sent);
          same_resting = rest;
          same_called = calls;
        })
    paper-Outcome t r own clear paper (lost err) = stopped err d (still _ d)

    acts-market_order :
        (t : Trade W)
        → Own t
        → acts (d.sent ++ market_order t.pair t.side t.quantity ∷ [])
          ≡ acts d.sent ++ market_order o.pair o.side q ∷ []
    acts-market_order t own =
        filter-append is_act d.sent (market_order t.pair t.side t.quantity ∷ [])
        ∙ rw (own.pair, own.side, own.quantity) refl

    live-Outcome :
        (t : Trade W) (b : Desk W C) (r : Result (Option (Trade W)) × Desk W C)
        → Own t
        → loss_limit_hit cfg ans d ≡ false
        → (cfg.active == "production") ≡ true
        → b ≡ asked_for (market_order t.pair t.side t.quantity) d
        → Recorded cfg ans o t b r
        → Outcome cfg ans o d r
    live-Outcome t b r own clear live at (kept e log sent rest calls) =
        filled c q t e known fits clear (record {
          pair = own.pair;
          side = own.side;
          strategy = own.strategy;
          quantity = own.quantity;
          recorded = log ∙ ap (λ (u : Desk W C). u.db.trades ++ t ∷ []) at;
          asked = (
            λ _. ap acts (sent ∙ ap (λ (u : Desk W C). u.sent) at) ∙ acts-market_order t own,
            λ paper. cc,
          );
          same_resting = rest ∙ ap (λ (u : Desk W C). u.resting) at;
          same_called = calls ∙ ap (λ (u : Desk W C). u.called) at;
        })
    live-Outcome t b r own clear live at (lost err) =
        unrecorded c q (market_order o.pair o.side q) err b known fits clear live (inl refl)
          (ap (λ (u : Desk W C). acts u.sent) at ∙ acts-market_order t own)
          (ap (λ (u : Desk W C). u.db) at) (ap (λ (u : Desk W C). u.resting) at)
          (ap (λ (u : Desk W C). u.called) at)

    place_live-Outcome :
        (t : Trade W) (r : Result String)
        → Own t
        → loss_limit_hit cfg ans d ≡ false
        → (cfg.active == "production") ≡ true
        → Outcome cfg ans o d
            (place_live ans t r (asked_for (market_order t.pair t.side t.quantity) d))
    place_live-Outcome t (raise e) own clear live =
        unrecorded c q (market_order o.pair o.side q) e _ known fits clear live (inl refl)
          (acts-market_order t own) refl refl refl
    place_live-Outcome t (ok txid) own clear live =
        let u = record t { txid = some txid } in
        let b = asked_for (market_order t.pair t.side t.quantity) d in
        let mine : Own u = record {
          pair = own.pair;
          side = own.side;
          strategy = own.strategy;
          quantity = own.quantity;
        } in
        live-Outcome u b (record_trade ans u b) mine clear live refl
          (record_trade-Recorded cfg ans o u b)

    place-Outcome :
        (t : Trade W)
        → Own t
        → loss_limit_hit cfg ans d ≡ false
        → Outcome cfg ans o d (place cfg ans t d)
    unfolding place
    place-Outcome t own clear =
        if-elim (Outcome cfg ans o d) (cfg.active == "test") _ _
          (λ test.
            paper-Outcome t (record_trade ans t d) own clear (paper_mode cfg.active test)
              (record_trade-Recorded cfg ans o t d))
          (λ _.
            if-elim (Outcome cfg ans o d) (cfg.active == "production") _ _
              (place_live-Outcome t ans.place_order own clear)
              (λ _. stopped runtime_error d (still _ d)))

    eligible_free : maker_eligible cfg o d ≡ true → contains (o.pair, o.strategy) d.resting ≡ false
    unfolding maker_eligible is_resting
    eligible_free able = ground arith

    eligible_book : maker_eligible cfg o d ≡ true → d.has_book ≡ true
    unfolding maker_eligible
    eligible_book able = ground arith

    rest_posted-Outcome :
        (r : Result String)
        → loss_limit_hit cfg ans d ≡ false
        → maker_eligible cfg o d ≡ true
        → (cfg.active == "production") ≡ true
        → Outcome cfg ans o d
            ((rest_posted cfg ans o q r >> pure none) (asked_for (limit_of cfg o q) d))
    rest_posted-Outcome (raise e) clear able live =
        unrecorded c q (limit_of cfg o q) e _ known fits clear live (inr refl)
          (filter-append is_act d.sent (limit_of cfg o q ∷ [])) refl refl refl
    rest_posted-Outcome (ok txid) clear able live =
        let entry = entry_of cfg ans o q (some txid) in
        let b = asked_for (limit_of cfg o q) d in
        let (there, log, sent) = add-is_resting entry b in
        rested c q _ known fits clear (record {
          was_eligible = able;
          same_trades = ap (λ (x : Database W). x.trades) log;
          asked = (
            λ _. ap acts sent ∙ filter-append is_act d.sent (limit_of cfg o q ∷ []),
            λ paper. cc,
          );
          resting = there;
          book = add-has_book entry b ∙ eligible_book able;
          same_called = add-called entry b (eligible_free able);
        })

    rest-Outcome :
        loss_limit_hit cfg ans d ≡ false
        → maker_eligible cfg o d ≡ true
        → Outcome cfg ans o d ((rest_maker_entry cfg ans o q >> pure none) d)
    unfolding rest_maker_entry
    rest-Outcome clear able =
        if-elim
          (λ (r : Result (Unit {0}) × Desk W C).
            Outcome cfg ans o d (((λ (_ : Desk W C). r) >> pure none) d))
          (cfg.active == "production") _ _ (rest_posted-Outcome ans.place_post_only clear able)
          (λ paper.
            let (there, log, sent) = add-is_resting (entry_of cfg ans o q none) d in
            rested c q _ known fits clear (record {
              was_eligible = able;
              same_trades = ap (λ (b : Database W). b.trades) log;
              asked = (λ live. cc, λ _. sent);
              resting = there;
              book = add-has_book (entry_of cfg ans o q none) d ∙ eligible_book able;
              same_called = add-called (entry_of cfg ans o q none) d (eligible_free able);
            }))

    submit-Outcome : Outcome cfg ans o d (submit cfg ans o (some q) d)
    unfolding submit trade_of reject
    submit-Outcome =
        if-elim (Outcome cfg ans o d) (loss_limit_hit cfg ans d) _ _
          (λ _. declined _ (reject-Still cfg ans o q daily_loss_limit d _))
          (λ clear.
            if-elim (Outcome cfg ans o d) (maker_eligible cfg o d) _ _ (rest-Outcome clear) (λ _.
              place-Outcome (trade_of cfg ans o q d)
                (record { pair = refl; side = refl; strategy = refl; quantity = refl }) clear))

  Sized-Outcome :
      (c : CurrencyConfig W) (d : Desk W C) (r : Result (Option W) × Desk W C)
      → lookup o.pair cfg.currencies ≡ some c
      → Sized cfg ans o c d r
      → Outcome cfg ans o d (((λ (_ : Desk W C). r) >>= submit cfg ans o) d)
  unfolding submit
  Sized-Outcome c d r known (sized q fits) = submit-Outcome c q d known fits
  Sized-Outcome c d r known (sized_read q live fits) =
      Outcome-after_reading cfg ans o d live (submit-Outcome c q (after_reading d) known fits)
  Sized-Outcome c d r known (refused e h) = declined e h
  Sized-Outcome c d r known (capped e h) = stopped runtime_error e h

  configured-Outcome :
      (d : Desk W C) (found : Option (CurrencyConfig W))
      → lookup o.pair cfg.currencies ≡ found
      → Outcome cfg ans o d (with_config cfg ans o found d)
  configured-Outcome d none known = stopped key_error d (still _ d)
  configured-Outcome d (some c) known =
      Sized-Outcome c d (size_order cfg ans o c d) known (size_order-Sized cfg ans o c d)

  -- A call of `execute` ends in one of five ways, and a desk and a result never part. It declines
  -- or breaks off with no order asked for and nothing traded or rested; it rests a maker entry; it
  -- returns the trade that it appended to the log; or, in production alone, it raises after the
  -- exchange was asked for the order, with no trade in the log and no entry in the book, whether the
  -- exchange took the order or not. An order that rests or is asked for has a quantity that sizing
  -- allows, the daily loss limit is not hit, and it is asked for once.
  pub execute-Outcome : (d : Desk W C) → Outcome cfg ans o d (execute cfg ans o d)
  unfolding execute
  execute-Outcome d = configured-Outcome d (lookup o.pair cfg.currencies) refl
