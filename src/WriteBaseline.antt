-- ===== src/WriteBaseline.antt =====
-- scripts/write_baseline.py, with `save_baseline` of cryptotrader/reconcile.py: the baseline that the
-- daily check compares with. The attribution file, the balances, the clock and `round(x, 12)` are
-- arguments; the prose of the file is not modelled.
pub mod Quiet
pub mod Settled
pub mod Checks
mod Tests
use cryptotrader.Prelude.{
  ℕ, String, Bool, not, if◌then◌else◌, Option, none, some, List, [], ◌∷◌, foldl, filter, map,
  string_eq,
}
use cryptotrader.Prelude.Dict.{Dict, contains, insert}
use cryptotrader.Float.{Float}
use cryptotrader.Database.{Database}
use cryptotrader.Holdings.{ledger_low_water_by_pair}
use cryptotrader.Reconcile.{AssetReconciliation, divergence, reconcile}
use cryptotrader.DailyCheck.Report.{Baseline, is_empty}

module _ (W : Type 0) where
  -- The file: what the checks read of it, and the attribution.
  pub record Saved : Type 0 where
    pub baseline : Baseline W
    pub attribution : Dict String String

module _ {W : Type 0} ⦃fl : Float W⦄ (round12 : W → W) where
  unfoldable pub divergences : List (AssetReconciliation W) → Dict String W
  divergences = foldl (λ d r. insert r.asset (round12 (divergence r)) d) []

  unfoldable pub rounded : Dict String W → Dict String W
  rounded = map λ p. (p.0, round12 p.1)

  unfoldable pub save_baseline :
      List (AssetReconciliation W) → Dict String String → W → Dict String W → Saved W
  save_baseline results attribution recorded ledger_floor = record {
    baseline = record {
      divergence = divergences results;
      recorded = recorded;
      ledger_floor = rounded ledger_floor;
    };
    attribution = attribution;
  }

  abbrev pub missing :
      List (AssetReconciliation W) → Dict String String → List (AssetReconciliation W)
  missing results attribution = filter (λ r. not (contains r.asset attribution)) results

  -- `main`: the exit code, and the file where one is written.
  unfoldable pub write_baseline :
      Bool → Dict String String → W → Database W → Dict String W → ℕ × Option (Saved W)
  write_baseline dry_run attribution recorded db balances =
      let results = reconcile db balances [] "production" [] in
      let floor = ledger_low_water_by_pair db "production" in
      if not (is_empty (missing results attribution))
      then (1, none)
      else if dry_run
      then (0, none)
      else (0, some (save_baseline results attribution recorded floor))
