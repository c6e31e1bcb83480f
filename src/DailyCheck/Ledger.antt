-- ===== src/DailyCheck/Ledger.antt =====
-- `check_ledger` against the running net of each pair, and the floor that the baseline records.
use cryptotrader.Prelude.{
  String, ◌≡◌, refl, sym, ap, ◌∙◌, subst, true, false, Bool-cases, inl, inr, ◌↔◌, List, [], ◌∷◌,
  ◌++◌, foldl, arith, string_eq,
}
use cryptotrader.Prelude.Dict.{Dict, get_or, insert}
use mathlib.Core.List.{append_assoc}
use cryptotrader.Float.{Float, ◌-◌, ◌+◌ as plus, lit, lt}
use cryptotrader.Float.Laws.{IsOrdered, ◌≼◌}
use cryptotrader.Models.{Trade}
use cryptotrader.Database.{Database}
use cryptotrader.Holdings.{LowWater, low_step, change, ordered_rows, ledger_low_water_by_pair}
use cryptotrader.Holdings.Low.{no_rows, running_of, running_of-low_step, low_water-le}
use cryptotrader.DailyCheck.{qty_epsilon, ledger_step, check_ledger, prod_trades}
use cryptotrader.DailyCheck.Report.{LedgerWalk, is_empty}

is_empty-append : {A : Type 0} (xs : List A) (a : A) → is_empty (xs ++ a ∷ []) ≡ false
is_empty-append [] a = refl
is_empty-append (x ∷ xs) a = refl

module _ {W : Type 0} ⦃fl : Float W⦄ (floor : Dict String W) where
  -- The net is not under the recorded floor, less the tolerance.
  abbrev pub IsHeld : String → W → Type 0
  IsHeld pair net = lt net (get_or pair (lit 0) floor - qty_epsilon) ≡ false

  -- So it is after each row that comes, from the nets in `s`.
  abbrev AllHeld : LowWater W → List (Trade W) → Type 0
  AllHeld s [] = Unit
  AllHeld s (t ∷ ts) = IsHeld t.pair (running_of t.pair (low_step s t)) × AllHeld (low_step s t) ts

  ledger_step-breached :
      (s : LedgerWalk W) (t : Trade W)
      → is_empty s.breaches ≡ false
      → is_empty (ledger_step floor s t).breaches ≡ false
  unfolding ledger_step
  ledger_step-breached s t h = ground (arith, is_empty-append s.breaches t.pair)

  stays_breached :
      (s : LedgerWalk W) (ts : List (Trade W))
      → is_empty s.breaches ≡ false
      → is_empty (foldl (ledger_step floor) s ts).breaches ≡ false
  stays_breached s [] h = h
  stays_breached s (t ∷ ts) h =
      stays_breached (ledger_step floor s t) ts (ledger_step-breached s t h)

  net-low_step :
      (l : LowWater W) (t : Trade W)
      → running_of t.pair (low_step l t) ≡ plus (running_of t.pair l) (change t)
  net-low_step l t =
      running_of-low_step t.pair l t ∙ rw ((string_eq.beq_iff t.pair t.pair).1 refl) refl

  module _ (s : LedgerWalk W) (l : LowWater W) (t : Trade W) (e : s.running ≡ l.running) where
    step-running : (ledger_step floor s t).running ≡ (low_step l t).running
    unfolding ledger_step low_step
    step-running = ap (λ r. insert t.pair (plus (get_or t.pair (lit 0) r) (change t)) r) e

    step-net : plus (get_or t.pair (lit 0) s.running) (change t) ≡ running_of t.pair (low_step l t)
    step-net = ap (λ r. plus (get_or t.pair (lit 0) r) (change t)) e ∙ sym (net-low_step l t)

    step-held :
        IsHeld t.pair (running_of t.pair (low_step l t))
        → (ledger_step floor s t).breaches ≡ s.breaches
    unfolding ledger_step
    step-held h = rw (step-net, h) refl

    step-under :
        lt (running_of t.pair (low_step l t)) (get_or t.pair (lit 0) floor - qty_epsilon) ≡ true
        → s.breaches ≡ []
        → is_empty (ledger_step floor s t).breaches ≡ false
    unfolding ledger_step
    step-under h b = rw (step-net, h, b) refl

  held_of_unbreached :
      (s : LedgerWalk W) (l : LowWater W) (ts : List (Trade W))
      → s.running ≡ l.running
      → s.breaches ≡ []
      → is_empty (foldl (ledger_step floor) s ts).breaches ≡ true
      → AllHeld l ts
  held_of_unbreached s l [] e b h = tt
  held_of_unbreached s l (t ∷ ts) e b h =
      let net = running_of t.pair (low_step l t) in
      elim (Bool-cases (lt net (get_or t.pair (lit 0) floor - qty_epsilon))) [
        | inl under ↦ cc (stays_breached (ledger_step floor s t) ts (step-under s l t e under b))
        | inr held ↦ (
          held,
          held_of_unbreached (ledger_step floor s t) (low_step l t) ts (step-running s l t e)
              (step-held s l t e held ∙ b) h,
        )
      ]

  unbreached_of_held :
      (s : LedgerWalk W) (l : LowWater W) (ts : List (Trade W))
      → s.running ≡ l.running
      → s.breaches ≡ []
      → AllHeld l ts
      → is_empty (foldl (ledger_step floor) s ts).breaches ≡ true
  unbreached_of_held s l [] e b h = rw b refl
  unbreached_of_held s l (t ∷ ts) e b h =
      unbreached_of_held (ledger_step floor s t) (low_step l t) ts (step-running s l t e)
        (step-held s l t e h.0 ∙ b) h.1

  prefix-IsHeld :
      (s : LowWater W) (us vs : List (Trade W)) (t : Trade W)
      → AllHeld s (us ++ t ∷ vs)
      → IsHeld t.pair (running_of t.pair (foldl low_step s (us ++ t ∷ [])))
  prefix-IsHeld s [] vs t h = h.0
  prefix-IsHeld s (u ∷ us) vs t h = prefix-IsHeld (low_step s u) us vs t h.1

  held_everywhere :
      (s : LowWater W) (ts : List (Trade W))
      → ((us vs : List (Trade W)) (t : Trade W)
          → ts ≡ us ++ t ∷ vs
          → IsHeld t.pair (running_of t.pair (foldl low_step s (us ++ t ∷ []))))
      → AllHeld s ts
  held_everywhere s [] h = tt
  held_everywhere s (t ∷ ts) h = (
    h [] ts t refl,
    held_everywhere (low_step s t) ts (λ us vs u e. h (t ∷ us) vs u (ap (λ l. t ∷ l) e)),
  )

  -- The check passes exactly if, after every part of the log that begins with its oldest row, the
  -- net of the last row's pair is not under the floor of the pair by more than the tolerance.
  pub check_ledger_iff :
      (trades : List (Trade W))
      → ((check_ledger trades floor).passed ≡ true) ↔ (
          (us vs : List (Trade W)) (t : Trade W)
          → trades ≡ us ++ t ∷ vs
          → IsHeld t.pair (running_of t.pair (foldl low_step no_rows (us ++ t ∷ []))))
  unfolding check_ledger
  check_ledger_iff trades = (
    λ h us vs t e.
        prefix-IsHeld no_rows us vs t
          (subst (AllHeld no_rows) e (held_of_unbreached _ no_rows trades refl refl h)),
    λ h. unbreached_of_held _ no_rows trades refl refl (held_everywhere no_rows trades h),
  )

module _ {W : Type 0} ⦃fl : Float W⦄ where
  pub not-lt : (o : IsOrdered W) (x y : W) → y ≼ x → lt x y ≡ false
  not-lt o x y h = rw (o.lt-not_le x y, h) refl

  -- Under an order on quantities that a tolerance does not raise, the check passes on the log that
  -- the floor was taken from, whatever over-sells are in it.
  pub check_ledger-low_water :
      (o : IsOrdered W) (db : Database W)
      → ((x : W) → x - qty_epsilon ≼ x)
      → (check_ledger (prod_trades db) (ledger_low_water_by_pair db "production")).passed ≡ true
  unfolding prod_trades
  check_ledger-low_water o db lowers =
      (check_ledger_iff (ledger_low_water_by_pair db "production") (ordered_rows db "production")).1
        λ us vs t e. not-lt o _ _ (
          o.le_trans _ _ _ (lowers _)
            (low_water-le o t.pair db "production" (us ++ t ∷ []) vs
              (e ∙ sym (append_assoc us (t ∷ []) vs))).0)
