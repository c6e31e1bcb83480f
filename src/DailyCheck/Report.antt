-- ===== src/DailyCheck/Report.antt =====
-- scripts/daily_check.py: the checks of a report and what they are made from: the inputs of a run and
-- the answers of the host.
use cryptotrader.Prelude.{
  String, Bool, true, false, not, ◌&&◌, ◌==◌, string_eq, Option, none, some, List, [], ◌∷◌, filter,
}
use cryptotrader.Prelude.Dict.{Dict}
use cryptotrader.Models.{Trade}
use cryptotrader.Models.Time.{DateTime}
use cryptotrader.Database.{Database}
use cryptotrader.Reconcile.{Fill, LedgerEntry}

pub data Severity : Type 0 where
  error warn info : Severity

pub record Check : Type 0 where
  pub name : String
  pub passed : Bool
  pub severity : Severity

abbrev pub is_error : Severity → Bool
is_error error = true
is_error warn = false
is_error info = false

abbrev pub is_warn : Severity → Bool
is_warn error = false
is_warn warn = true
is_warn info = false

-- The `checks` of a report are the report.
unfoldable pub failures : List Check → List Check
failures = filter λ c. not c.passed && is_error c.severity

unfoldable pub warnings : List Check → List Check
warnings = filter λ c. not c.passed && is_warn c.severity

abbrev pub is_empty : {A : Type 0} → List A → Bool
is_empty [] = true
is_empty (a ∷ rest) = false

module _ (W : Type 0) where
  -- The loop of `check_ledger`: the dict `running` and the pairs of `breaches`.
  pub record LedgerWalk : Type 0 where
    pub running : Dict String W
    pub breaches : List String

  -- The baseline file: `divergence`, `recorded` as a Unix time, and `ledger_floor`.
  pub record Baseline : Type 0 where
    pub divergence : Dict String W
    pub recorded : W
    pub ledger_floor : Dict String W

  pub record ExchangeState : Type 0 where
    pub balances : Dict String W
    pub pairs : Dict String (String × String)
    pub fills : Dict String (Fill W)
    -- `none` where the ledger could not be read
    pub ledger : Option (Dict String (LedgerEntry W))

  -- What a run is given: the snapshot, `stop_loss_pct` by pair where the settings have it, the
  -- hours of the window, the baseline, and the clock.
  pub record Inputs : Type 0 where
    pub db : Database W
    pub stops : Dict String W
    pub baseline : Baseline
    pub now : DateTime
    pub since : DateTime
    -- DEFAULT_TOLERANCE of reconcile.py
    pub tolerance : W

  -- What a run against the host meets: the state of the exchange unless its reading raised, the
  -- lines of the journal on declined orders where it could be read, the unit's state, and what
  -- /health returned. `ssh` does not raise where its command fails.
  pub record Remote : Type 0 where
    pub exchange : Option ExchangeState
    pub journal : Option (List String)
    pub active : String
    pub health_is_200 : Bool

abbrev pub exchange_check : Bool → Severity → Check
exchange_check passed severity = record {
  name = "ledger_matches_exchange";
  passed = passed;
  severity = severity;
}

-- A journal that could not be read gives no line.
abbrev pub lines_of : Option (List String) → List String
lines_of none = []
lines_of (some lines) = lines

unfoldable pub check_declined : Option (List String) → Check
check_declined journal = record {
  name = "no_declined_orders";
  passed = is_empty (lines_of journal);
  severity = error;
}

unfoldable pub check_service : String → Bool → Check
check_service active health_is_200 = record {
  name = "service_healthy";
  passed = active == "active" && health_is_200;
  severity = error;
}

abbrev pub txids_of : {W : Type 0} → List (Trade W) → List String
txids_of [] = []
txids_of (t ∷ rest) = elim t.txid [ none ↦ txids_of rest | some x ↦ x ∷ txids_of rest ]
