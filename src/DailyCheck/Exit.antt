-- ===== src/DailyCheck/Exit.antt =====
-- What the exit code of `main` says of production.
use cryptotrader.Prelude.{
  ap, inr, inl, ◌⊎◌, ℕ, String, ◌≡◌, refl, subst, true, false, Bool, not, ◌&&◌, string_eq, Option,
  some, List, [], ◌∷◌, ◌++◌, foldl, filter, arith, All, ok, if◌then◌else◌,
}
use cryptotrader.Prelude.Dict.{lookup, get_or}
use cryptotrader.Float.{Float, lit}
use cryptotrader.Models.{Trade}
use cryptotrader.Models.Time.{not_after}
use cryptotrader.Holdings.{low_step, open_positions}
use cryptotrader.Holdings.Low.{no_rows, running_of}
use cryptotrader.Reconcile.{AssetReconciliation, reconcile, is_ok}
use cryptotrader.DailyCheck.{
  none, build_report, main, prod_trades, check_ledger, check_unbacked, check_stop_loss, check_feed,
  check_ledger_vs_exchange, is_unbacked, is_past, latest_closes, adjustment_of, judge,
}
use cryptotrader.DailyCheck.Report.{
  lines_of, Check, Inputs, Remote, ExchangeState, is_error, is_empty, failures, check_declined,
  check_service,
}
use cryptotrader.DailyCheck.Ledger.{IsHeld, check_ledger_iff}

none_selected :
    {A : Type 0} (p : A → Bool) (xs : List A)
    → is_empty (filter p xs) ≡ true
    → All (λ x. p x ≡ false) xs
none_selected p [] h = tt
none_selected p (x ∷ xs) h = ground (arith, none_selected p xs)

none_refused :
    {A : Type 0} (p : A → Bool) (xs : List A)
    → is_empty (filter (λ x. not (p x)) xs) ≡ true
    → All (λ x. p x ≡ true) xs
none_refused p [] h = tt
none_refused p (x ∷ xs) h = ground (arith, none_refused p xs)

empty_of_zero :
    {A : Type 0} (xs : List A) → ◌≡◌ {A = ℕ} (if is_empty xs then 0 else 1) 0 → is_empty xs ≡ true
empty_of_zero [] h = refl
empty_of_zero (x ∷ xs) h = absurd (omega arith)

service_lem :
    (active : String) (health : Bool)
    → (check_service active health).passed ≡ true
    → (active ≡ "active") × (health ≡ true)
unfolding check_service
service_lem active health h = ground (arith, string_eq.beq_iff active "active")

-- A check that would fail the run has passed.
abbrev DoesNotFail : Check → Type 0
DoesNotFail c = (not c.passed && is_error c.severity) ≡ false

nothing_in : {A : Type 0} (xs : List A) → is_empty xs ≡ true → xs ≡ []
nothing_in [] h = refl
nothing_in (x ∷ xs) h = cc

no_lines : (j : Option (List String)) → is_empty (lines_of j) ≡ true → (j ≡ none) ⊎ (j ≡ some [])
no_lines none h = inl refl
no_lines (some lines) h = inr (ap some (nothing_in lines h))

passed_of_error : (passed : Bool) → (not passed && true) ≡ false → passed ≡ true
passed_of_error passed h = ground arith

module _ {W : Type 0} ⦃fl : Float W⦄ where
  main_zero :
      (i : Inputs W) (remote : Option (Remote W))
      → main (ok (i, remote)) ≡ 0
      → All DoesNotFail (build_report i remote)
  unfolding main failures
  main_zero i remote h =
      none_selected _ (build_report i remote) (empty_of_zero (failures (build_report i remote)) h)

  judge_lem :
      (tolerance : W) (rows : List (AssetReconciliation W))
      → DoesNotFail (judge tolerance true rows)
      → All (λ q. is_ok tolerance q ≡ true) rows
  judge_lem tolerance [] h = tt
  judge_lem tolerance (r ∷ rest) h = none_refused (is_ok tolerance) (r ∷ rest) (passed_of_error _ h)

  -- The checks of a remote run that did not fail it.
  report_lem :
      (i : Inputs W) (r : Remote W)
      → All DoesNotFail (build_report i (some r))
      → ((check_ledger (prod_trades i.db) i.baseline.ledger_floor).passed ≡ true)
        × ((check_unbacked (prod_trades i.db) i.since).passed ≡ true)
        × ((check_stop_loss i.db i.stops).passed ≡ true)
        × ((check_feed i.db i.now).passed ≡ true)
        × DoesNotFail (check_ledger_vs_exchange i r.exchange)
        × ((check_declined r.journal).passed ≡ true)
        × ((check_service r.active r.health_is_200).passed ≡ true)
  unfolding build_report check_ledger check_unbacked check_stop_loss check_feed check_declined
      check_service
  report_lem i r h = (
    passed_of_error _ h.0,
    passed_of_error _ h.1.0,
    passed_of_error _ h.1.1.1.0,
    passed_of_error _ h.1.1.1.1.0,
    h.1.1.1.1.1.1.0,
    passed_of_error _ h.1.1.1.1.1.1.1.0,
    passed_of_error _ h.1.1.1.1.1.1.1.1.0,
  )

  within_tolerance :
      (i : Inputs W) (state : ExchangeState W)
      → is_empty i.baseline.divergence ≡ false
      → DoesNotFail (check_ledger_vs_exchange i (some state))
      → All
          (λ q. is_ok i.tolerance q ≡ true)
          (reconcile i.db state.balances i.baseline.divergence "production"
            (adjustment_of i.db state i.baseline))
  unfolding check_ledger_vs_exchange
  within_tolerance i state has h = judge_lem i.tolerance _ (
      subst
        (λ b. DoesNotFail (
          judge i.tolerance (not b) (
            reconcile i.db state.balances i.baseline.divergence "production"
              (adjustment_of i.db state i.baseline))))
        has h)

  -- An exit code of 0 of a run against the host, with a baseline and a readable exchange, says: no
  -- row of the log takes the net of its pair under the recorded floor by more than the tolerance; no
  -- sell of the window is without a matched buy; no open position is past its stop, where its pair
  -- has a close in the log and a stop other than zero in the table of the Bollinger stops; each
  -- reconciled asset drifts by no more than the tolerance; the journal has no line on a declined
  -- order, or could not be read; the unit is active and its health is 200.
  pub exit_zero :
      (i : Inputs W) (r : Remote W) (state : ExchangeState W) (us vs : List (Trade W)) (t : Trade W)
      → main (ok (i, some r)) ≡ 0
      → r.exchange ≡ some state
      → is_empty i.baseline.divergence ≡ false
      → prod_trades i.db ≡ us ++ t ∷ vs
      → IsHeld i.baseline.ledger_floor t.pair
          (running_of t.pair (foldl low_step no_rows (us ++ t ∷ [])))
        × All (λ s. (is_unbacked s && not_after i.since s.timestamp) ≡ false) (prod_trades i.db)
        × All
            (λ p.
              is_past (get_or p.0 (lit 0) i.stops) (lookup p.0 (latest_closes i.db)) p.1 ≡ false)
            (open_positions i.db "production")
        × All
            (λ q. is_ok i.tolerance q ≡ true)
            (reconcile i.db state.balances i.baseline.divergence "production"
              (adjustment_of i.db state i.baseline))
        × ((r.journal ≡ none) ⊎ (r.journal ≡ some []))
        × (r.active ≡ "active")
        × (r.health_is_200 ≡ true)
  unfolding check_unbacked check_stop_loss check_declined
  exit_zero i r state us vs t h reads has split =
      let (ledger, sells, stops, feed, exchange, declined, service) =
        report_lem i r (main_zero i (some r) h) in
      (
        (check_ledger_iff i.baseline.ledger_floor (prod_trades i.db)).0 ledger us vs t split,
        none_selected _ (prod_trades i.db) sells,
        none_selected _ (open_positions i.db "production") stops,
        within_tolerance i state has
            (subst (λ e. DoesNotFail (check_ledger_vs_exchange i e)) reads exchange),
        no_lines r.journal declined,
        (service_lem r.active r.health_is_200 service).0,
        (service_lem r.active r.health_is_200 service).1,
      )
