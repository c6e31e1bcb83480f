-- ===== src/Backtest/Reproduced.antt =====
-- What an exit code of 0 of `validate` says of the trades of production and of the replay.
use cryptotrader.Prelude.{
  nat_eq, if◌then◌else◌, >>=-eq-ok, ◌∙◌, subst, ℕ, String, ◌≡◌, refl, ◌⊎◌, inl, inr, arith, List,
  [], ◌∷◌, All, Result, ok, ◌≤◌,
}
use cryptotrader.Models.Time.{DateTime}
use cryptotrader.Prelude.Dict.{keys}
use cryptotrader.Float.{Float}
use cryptotrader.Database.{Database}
use cryptotrader.Reconcile.{sorted, text_before}
use cryptotrader.Backtest.Data.{Outcome}
use cryptotrader.Backtest.Validate.{
  Constants, simulated, actual_trades, warm, load_candles, replay_pair, judge_pair, validate_pair,
  validate_pairs, validate,
}
use cryptotrader.Backtest.Pairing.{IsReproduced, compare_pair-le, compare_pair-IsReproduced}

same_ok : (n m : ℕ) → ◌≡◌ {A = Result ℕ} (ok n) (ok m) → n ≡ m
same_ok n m h = cc

no_failures :
    (failures : ℕ)
    → ◌≡◌ {A = Result ℕ} (ok (if nat_eq.beq failures 0 then 0 else 1)) (ok 0)
    → failures ≡ 0
no_failures failures h = ground (arith, same_ok (if nat_eq.beq failures 0 then 0 else 1) 0 h)

module _ {W : Type 0} ⦃fl : Float W⦄ (trunc : W → ℕ) (k : Constants W) (db : Database W) where
  -- A pair with candles has a replay, which reproduces its trades.
  abbrev pub HasReplay : String → List (DateTime × W) → Type 0
  HasReplay pair c60 =
      (c60 ≡ [])
      ⊎ ((res : Outcome W) × (replay_pair trunc k db pair c60 ≡ ok res)
          × IsReproduced k pair (simulated k res) (actual_trades k db pair))

  judge_pair-HasReplay :
      (pair : String) (c60 : List (DateTime × W)) (n m : ℕ)
      → judge_pair trunc k db pair c60 n ≡ ok m
      → (n ≤ m) × (m ≡ n → HasReplay pair c60)
  judge_pair-HasReplay pair [] n m h = (omega (arith, same_ok n m h), λ e. inl refl)
  judge_pair-HasReplay pair (c ∷ c60) n m h =
      let (res, e, done) = >>=-eq-ok (replay_pair trunc k db pair (c ∷ c60)) _ h in
      (
        subst (λ j. n ≤ j) (same_ok _ m done)
            (compare_pair-le k pair (simulated k res) (actual_trades k db pair) n),
        λ q. inr (
          res,
          e,
          compare_pair-IsReproduced k pair (simulated k res) (actual_trades k db pair) n
              (same_ok _ m done ∙ q),
        ),
      )

  validate_pairs-HasReplay :
      (pairs : List String) (n m : ℕ)
      → validate_pairs trunc k db pairs n ≡ ok m
      → (n ≤ m) × (m ≡ n → All (λ p. HasReplay p (warm k (load_candles db p 60))) pairs)
  unfolding validate_pairs validate_pair
  validate_pairs-HasReplay [] n m h = (omega (arith, same_ok n m h), λ e. tt)
  validate_pairs-HasReplay (pair ∷ rest) n m h =
      let (j, e, more) = >>=-eq-ok (validate_pair trunc k db pair n) _ h in
      let first = judge_pair-HasReplay pair (warm k (load_candles db pair 60)) n j e in
      let later = validate_pairs-HasReplay rest j m more in
      (
        omega (arith, first.0, later.0),
        λ q. (first.1 (omega (arith, first.0, later.0)), later.1 (omega (arith, first.0, later.0))),
      )

-- If the validation ends with 0, then for each pair of the sizing table, those without hourly
-- candles from the warm-up on apart, the replay returns and reproduces the pair's trades: each
-- production trade of the window has a simulated trade of its own, of its side and 3595 to 3660
-- seconds before it, and each other simulated trade of the window is in the table of expected extras.
pub validate_zero :
    {W : Type 0} ⦃fl : Float W⦄ (trunc : W → ℕ) (k : Constants W) (db : Database W)
    → validate trunc k db ≡ ok 0
    → All
        (λ pair. HasReplay trunc k db pair (warm k (load_candles db pair 60)))
        (sorted text_before (keys k.pair_sizing))
unfolding validate
validate_zero trunc k db h =
    let (failures, e, done) =
      >>=-eq-ok (validate_pairs trunc k db (sorted text_before (keys k.pair_sizing)) 0) _ h in
    (validate_pairs-HasReplay trunc k db (sorted text_before (keys k.pair_sizing)) 0 failures e).1
      (no_failures failures done)
