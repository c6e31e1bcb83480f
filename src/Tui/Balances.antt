-- ===== src/Tui/Balances.antt =====
-- cryptotrader/tui/balance_panel.py and health_panel.py: the lines of two panels that poll. The
-- answer of the exchange, the probes and the clock are arguments; the markup is not modelled.
use Prim.Native.Nat.{◌/◌, ◌%◌}
use cryptotrader.Prelude.{
  ℕ, String, Bool, not, ltb, nat_beq, ◌&&◌, ◌==◌, string_eq, if◌then◌else◌, Option, none, some,
  List, [], ◌∷◌, ◌++◌, map, filter, Result, ok, raise, Error,
}
use cryptotrader.Prelude.Dict.{Dict, get_or, contains}
use cryptotrader.Float.{Float, lit, lt, gt}
use cryptotrader.Reconcile.{sorted, text_before}
use cryptotrader.Health.{Attempt, Checks, all_ok, check_database, check_kraken}

-- _DISPLAY
abbrev pub display : Dict String String
display =
    ("ZUSD", "USD")
    ∷ ("XXBT", "BTC")
    ∷ ("XETH", "ETH")
    ∷ ("ZGBP", "GBP")
    ∷ ("ZEUR", "EUR")
    ∷ ("ZAUD", "AUD")
    ∷ []

abbrev pub is_money : String → Bool
is_money key = contains key (("ZUSD", tt) ∷ ("ZEUR", tt) ∷ ("ZGBP", tt) ∷ ("ZAUD", tt) ∷ [])

module _ (W : Type 0) where
  -- A balance under its label, as money or as an amount of an asset.
  pub data BalanceLine : Type 0 where
    money : String → W → BalanceLine
    amount : String → W → BalanceLine
    failure : Error → BalanceLine
    no_balances : BalanceLine

module _ {W : Type 0} ⦃fl : Float W⦄ where
  abbrev pub part : ℕ → W
  part n = fl.quot (lit 1) (lit n)

  -- _MIN_DISPLAY
  abbrev pub min_display : Dict String W
  min_display =
      ("ZUSD", part 100)
      ∷ ("ZEUR", part 100)
      ∷ ("ZGBP", part 100)
      ∷ ("ZAUD", part 100)
      ∷ ("XXBT", part 1_000_000)
      ∷ ("XETH", part 10_000)
      ∷ []

  abbrev pub known_line : String → String → W → BalanceLine W
  known_line key label val = if is_money key then money label val else amount label val

  unfoldable pub known_lines : Dict String String → Dict String W → List (BalanceLine W)
  known_lines [] balance = []
  known_lines ((key, label) ∷ rest) balance =
      let val = get_or key (lit 0) balance in
      let others = known_lines rest balance in
      if lt val (get_or key (lit 0) min_display) then others else known_line key label val ∷ others

  -- The other balances, by their keys.
  unfoldable pub other_lines : Dict String W → List (BalanceLine W)
  other_lines balance =
      map (λ p. amount p.0 p.1)
        (filter (λ p. not (contains p.0 display) && gt p.1 (lit 0))
          (sorted (λ p q. text_before p.0 q.0) balance))

  abbrev pub or_none : List (BalanceLine W) → List (BalanceLine W)
  or_none [] = no_balances ∷ []
  or_none (l ∷ ls) = l ∷ ls

  unfoldable pub refresh_balance : Result (Dict String W) → List (BalanceLine W)
  refresh_balance (raise e) = failure e ∷ []
  refresh_balance (ok balance) = or_none (known_lines display balance ++ other_lines balance)

-- `_fmt_uptime`, with the numbers of its text.
pub data Uptime : Type 0 where
  in_seconds : ℕ → Uptime
  in_hours : ℕ → ℕ → Uptime
  in_minutes : ℕ → Uptime

unfoldable pub fmt_uptime : ℕ → Uptime
fmt_uptime seconds =
    let hours = seconds / 3600 in
    let minutes = seconds % 3600 / 60 in
    if ltb seconds 60
    then in_seconds seconds
    else if not (nat_beq hours 0)
    then in_hours hours minutes
    else in_minutes minutes

pub record HealthLines : Type 0 where
  pub is_ok : Bool
  pub uptime : Uptime
  pub deployed : String
  pub database_ok : Bool
  pub kraken : Option String

abbrev pub uptime_or : Option ℕ → ℕ → ℕ
uptime_or none elapsed = elapsed
uptime_or (some s) elapsed = s

abbrev pub status_or : Option String → String
status_or none = "ok"
status_or (some s) = s

-- `refresh_health`, of the two probes, the uptime that the service reports, and the screen's own.
unfoldable pub refresh_health :
    Attempt (Unit {0}) → Attempt (Option String) → Option ℕ → ℕ → String → HealthLines
refresh_health opened reply service elapsed deployed =
    let checks : Checks = record {
      database = check_database opened;
      kraken_api = check_kraken reply;
    } in
    record {
      is_ok = all_ok checks;
      uptime = fmt_uptime (uptime_or service elapsed);
      deployed = deployed;
      database_ok = checks.database.status == "ok";
      kraken =
          if checks.kraken_api.status == "ok"
          then some (status_or checks.kraken_api.kraken_status)
          else none;
    }
