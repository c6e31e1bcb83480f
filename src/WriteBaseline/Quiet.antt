-- ===== src/WriteBaseline/Quiet.antt =====
-- Where the exchange lists nothing later than the baseline, the check adjusts nothing.
use cryptotrader.Prelude.{
  String, ◌≡◌, refl, sym, ap, ◌∙◌, subst, false, Bool, not, ◌&&◌, Bool-cases, inl, inr, ◌==◌,
  string_eq, Option, none, some, List, [], ◌∷◌, foldl, map, All, All-append, arith,
}
use cryptotrader.Prelude.Dict.{Dict, get_or, insert}
use cryptotrader.Float.{Float, ◌+◌, lit, gt}
use cryptotrader.Database.{Database}
use cryptotrader.Reconcile.{Movement, Fill, LedgerEntry, value_or, sorted, place_before, member}
use cryptotrader.Reconcile.Movements.{
  leg, legs_of, attribute_fill, attribute_all, attribute_movements, add_manual, manual_adjustment,
  add_reward, reward_adjustment, zeros,
}
use cryptotrader.DailyCheck.{adjustment_of, add_rewards, watched, bot_order_txids}
use cryptotrader.DailyCheck.Report.{ExchangeState, Baseline, is_empty}

module _ {A : Type 0} (P : A → Type 0) (before : A → A → Bool) where
  place_before-All : (a : A) (xs : List A) → P a → All P xs → All P (place_before before a xs)
  unfolding place_before
  place_before-All a [] p ps = (p, tt)
  place_before-All a (x ∷ xs) p ps = elim (Bool-cases (before a x)) [
    | inl yes_before ↦ rw yes_before (p, ps)
    | inr after ↦ rw after (ps.0, place_before-All a xs p ps.1)
  ]

  sorted-All : (xs : List A) → All P xs → All P (sorted before xs)
  unfolding sorted
  sorted-All [] ps = tt
  sorted-All (x ∷ xs) ps = place_before-All x (sorted before xs) ps.0 (sorted-All xs ps.1)

module _ {W : Type 0} ⦃fl : Float W⦄ (since : W) where
  abbrev IsPast : Movement W → Type 0
  IsPast m = gt m.timestamp since ≡ false

  -- A fill and an entry of the ledger that are not later than the baseline.
  abbrev pub IsPastFill : Fill W → Type 0
  IsPastFill f = gt (value_or (lit 0) f.time) since ≡ false

  abbrev pub IsPastEntry : LedgerEntry W → Type 0
  IsPastEntry e = gt (value_or (lit 0) e.time) since ≡ false

  leg-All :
      (f : Fill W) (pair : String) (by_bot : Bool) (watch : List String) (l : String × W)
      (rest : List (Movement W))
      → IsPastFill f
      → All IsPast rest
      → All IsPast (leg f pair by_bot watch l rest)
  leg-All f pair by_bot watch (asset, amount) rest h hs =
      elim (Bool-cases (member asset watch && not (fl.eq amount (lit 0)))) [
        | inl listed ↦ rw listed (h, hs)
        | inr skipped ↦ rw skipped hs
      ]

  attribute_fill-All :
      (txids watch : List String) (f : Fill W) (assets : Option (String × String))
      → IsPastFill f
      → All IsPast (attribute_fill txids watch f assets)
  attribute_fill-All txids watch f none h = tt
  attribute_fill-All txids watch f (some assets) h =
      let by_bot = member (value_or "" f.ordertxid) txids in
      let pair = value_or "" f.pair in
      let legs = legs_of f assets in
      leg-All f pair by_bot watch legs.0 (leg f pair by_bot watch legs.1 []) h
        (leg-All f pair by_bot watch legs.1 [] h tt)

  attribute_all-All :
      (pairs : Dict String (String × String)) (txids watch : List String) (fills : List (Fill W))
      → All IsPastFill fills
      → All IsPast (attribute_all pairs txids watch fills)
  attribute_all-All pairs txids watch [] h = tt
  attribute_all-All pairs txids watch (f ∷ fills) h =
      All-append IsPast _ _ (attribute_fill-All txids watch f _ h.0)
        (attribute_all-All pairs txids watch fills h.1)

  -- A dict of nothing but zeros.
  abbrev AreZero : Dict String W → Type 0
  AreZero = All λ p. p.1 ≡ lit 0

  insert-AreZero : (a : String) (d : Dict String W) → AreZero d → AreZero (insert a (lit 0) d)
  insert-AreZero a [] h = (refl, tt)
  insert-AreZero a ((k, v) ∷ d) h = elim (Bool-cases (k == a)) [
    | inl same ↦ rw same (refl, h.1)
    | inr other ↦ rw other (h.0, insert-AreZero a d h.1)
  ]

  zeros-AreZero : (watch : List String) → AreZero (zeros watch)
  unfolding zeros
  zeros-AreZero watch = from [] watch tt
    where
      from :
          (d : Dict String W) (xs : List String)
          → AreZero d
          → AreZero (foldl (λ d a. insert a (lit 0) d) d xs)
      from d [] h = h
      from d (x ∷ xs) h = from (insert x (lit 0) d) xs (insert-AreZero x d h)

  get_or-AreZero : (a : String) (d : Dict String W) → AreZero d → get_or a (lit 0) d ≡ lit 0
  get_or-AreZero a [] h = refl
  get_or-AreZero a ((k, v) ∷ d) h = ground (arith, h.0, get_or-AreZero a d h.1)

  manual_one : (d : Dict String W) (m : Movement W) → IsPast m → add_manual since d m ≡ d
  manual_one d m h = ground arith

  reward_one : (d : Dict String W) (e : LedgerEntry W) → IsPastEntry e → add_reward since d e ≡ d
  reward_one d e h = ground arith

  manual_past :
      (ms : List (Movement W)) (d : Dict String W)
      → All IsPast ms
      → foldl (add_manual since) d ms ≡ d
  manual_past [] d h = refl
  manual_past (m ∷ ms) d h =
      ap (λ x. foldl (add_manual since) x ms) (manual_one d m h.0) ∙ manual_past ms d h.1

  reward_past :
      (es : List (LedgerEntry W)) (d : Dict String W)
      → All IsPastEntry es
      → foldl (add_reward since) d es ≡ d
  reward_past [] d h = refl
  reward_past (e ∷ es) d h =
      ap (λ x. foldl (add_reward since) x es) (reward_one d e h.0) ∙ reward_past es d h.1

  add_all_zero :
      (zs d : Dict String W)
      → ◌≡◌ {A = W} (lit 0 + lit 0) (lit 0)
      → AreZero zs
      → AreZero d
      → AreZero (foldl (λ d r. insert r.0 (get_or r.0 (lit 0) d + r.1) d) d zs)
  add_all_zero [] d e hz h = h
  add_all_zero ((k, v) ∷ zs) d e hz h =
      let sum = ap (λ x. x + v) (get_or-AreZero k d h) ∙ ap (λ x. lit 0 + x) hz.0 ∙ e in
      add_all_zero zs (insert k (get_or k (lit 0) d + v) d) e hz.1
        (subst (λ x. AreZero (insert k x d)) (sym sum) (insert-AreZero k d h))

  All-values :
      {V : Type 0} (P : V → Type 0) (d : Dict String V)
      → All (λ p. P p.1) d
      → All P (map (λ p. p.1) d)
  All-values P [] h = tt
  All-values P (p ∷ d) h = (h.0, All-values P d h.1)

  manual_adjustment-AreZero :
      (fills : Dict String (Fill W)) (pairs : Dict String (String × String))
      (txids watch : List String)
      → All (λ p. IsPastFill p.1) fills
      → AreZero (manual_adjustment (attribute_movements fills pairs txids watch) since watch)
  unfolding manual_adjustment attribute_movements
  manual_adjustment-AreZero fills pairs txids watch h =
      subst AreZero
        (sym (
          manual_past _ (zeros watch) (
            attribute_all-All pairs txids watch _
              (sorted-All IsPastFill _ _ (All-values IsPastFill fills h)))))
        (zeros-AreZero watch)

  reward_adjustment-AreZero :
      (es : Dict String (LedgerEntry W)) (watch : List String)
      → All (λ p. IsPastEntry p.1) es
      → AreZero (reward_adjustment es since watch)
  unfolding reward_adjustment
  reward_adjustment-AreZero es watch h =
      subst AreZero (sym (reward_past _ (zeros watch) (All-values IsPastEntry es h)))
        (zeros-AreZero watch)

  -- Nothing that the ledger lists is later than the baseline.
  abbrev pub IsQuietLedger : Option (Dict String (LedgerEntry W)) → Type 0
  IsQuietLedger none = Unit
  IsQuietLedger (some es) = All (λ p. IsPastEntry p.1) es

  add_rewards-AreZero :
      (ledger : Option (Dict String (LedgerEntry W))) (watch : List String) (d : Dict String W)
      → ◌≡◌ {A = W} (lit 0 + lit 0) (lit 0)
      → IsQuietLedger ledger
      → AreZero d
      → AreZero (add_rewards ledger since watch d)
  add_rewards-AreZero none watch d e q h = h
  add_rewards-AreZero (some es) watch d e q h =
      add_all_zero (reward_adjustment es since watch) d e (reward_adjustment-AreZero es watch q) h

module _ {W : Type 0} ⦃fl : Float W⦄ where
  -- Nothing that the exchange lists is later than the baseline.
  abbrev pub IsQuiet : W → ExchangeState W → Type 0
  IsQuiet since state =
      All (λ p. IsPastFill since p.1) state.fills × IsQuietLedger since state.ledger

  pub adjustment_of-zero :
      (db : Database W) (state : ExchangeState W) (b : Baseline W) (a : String)
      → ◌≡◌ {A = W} (lit 0 + lit 0) (lit 0)
      → IsQuiet b.recorded state
      → get_or a (lit 0) (adjustment_of db state b) ≡ lit 0
  unfolding adjustment_of
  adjustment_of-zero db state b a e h = elim (Bool-cases (is_empty b.divergence)) [
    | inl bare ↦ rw bare refl
    | inr listed ↦ rw listed (
        let watch = watched b.ledger_floor state.balances in
        get_or-AreZero b.recorded a _ (
          add_rewards-AreZero b.recorded state.ledger watch _ e h.1 (
            manual_adjustment-AreZero b.recorded state.fills state.pairs (bot_order_txids db) watch
              h.0)))
  ]
