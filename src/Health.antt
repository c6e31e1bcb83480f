-- ===== src/Health.antt =====
-- cryptotrader/health.py: one request of /health with its cached checks. The clock, the settings'
-- mode, and how the two probes end are arguments; two requests are not interleaved.
pub mod Cache
mod Tests
use cryptotrader.Prelude.{
  ℕ, String, Bool, true, false, ◌&&◌, ◌==◌, string_eq, if◌then◌else◌, Option, none, some, List, [],
  ◌∷◌,
}
use cryptotrader.Float.{Float, ◌-◌, lit, ge}

-- How a `try` ends: with a value, or with the text of its exception.
pub data Attempt (A : Type 0) : Type 0 where
  answered : A → Attempt A
  failed : String → Attempt A

-- The dict of one check.
pub record CheckResult : Type 0 where
  pub status : String
  pub detail : Option String
  pub kraken_status : Option String

pub record Checks : Type 0 where
  pub database : CheckResult
  pub kraken_api : CheckResult

abbrev pub error_result : String → CheckResult
error_result text = record { status = "error"; detail = some text; kraken_status = none }

unfoldable pub check_database : Attempt (Unit {0}) → CheckResult
check_database (answered u) = record { status = "ok"; detail = none; kraken_status = none }
check_database (failed text) = error_result text

-- The status of the reply, where it has one.
unfoldable pub check_kraken : Attempt (Option String) → CheckResult
check_kraken (answered none) = record {
  status = "ok";
  detail = none;
  kraken_status = some "unknown";
}
check_kraken (answered (some s)) = record { status = "ok"; detail = none; kraken_status = some s }
check_kraken (failed text) = error_result text

abbrev pub all_ok : Checks → Bool
all_ok c = c.database.status == "ok" && c.kraken_api.status == "ok"

module _ (W : Type 0) where
  -- The globals of the module.
  pub record Health : Type 0 where
    pub cached_result : Option Checks
    pub cached_at : W
    pub start_time : W
    pub deployed_at : String

  -- What one request meets: the readings of the clock, the probes if they are made, and the mode.
  pub record Visit : Type 0 where
    pub asked_at : W
    pub checked_at : W
    pub answered_at : W
    pub database : Attempt (Unit {0})
    pub kraken : Attempt (Option String)
    pub mode : String

  pub record HealthResponse : Type 0 where
    pub status : ℕ
    pub overall : String
    pub deployed_at : String
    pub uptime_seconds : ℕ
    pub mode : String
    pub checks : Checks

module _ {W : Type 0} ⦃fl : Float W⦄ where
  -- CACHE_TTL is ten seconds.
  unfoldable pub cache_is_stale : W → W → Bool
  cache_is_stale now cached_at = ge (now - cached_at) (lit 10)

  abbrev pub probe : Visit W → Checks
  probe v = record { database = check_database v.database; kraken_api = check_kraken v.kraken }

  abbrev pub renew : Visit W → Health W → Checks × Health W
  renew v h = (probe v, record h { cached_result = some (probe v); cached_at = v.checked_at })

  abbrev pub checks_for : Visit W → Health W → Option Checks → Checks × Health W
  checks_for v h none = renew v h
  checks_for v h (some c) = if cache_is_stale v.asked_at h.cached_at then renew v h else (c, h)

  -- `trunc` is `int` of a float.
  abbrev pub respond : (W → ℕ) → Visit W → Health W → Checks → HealthResponse W
  respond trunc v h c = record {
    status = if all_ok c then 200 else 503;
    overall = if all_ok c then "ok" else "degraded";
    deployed_at = h.deployed_at;
    uptime_seconds = trunc (v.answered_at - h.start_time);
    mode = v.mode;
    checks = c;
  }

  unfoldable pub handle_health : (W → ℕ) → Visit W → Health W → HealthResponse W × Health W
  handle_health trunc v h =
      let (c, kept) = checks_for v h h.cached_result in (respond trunc v kept c, kept)

  unfoldable pub handle_all : (W → ℕ) → Health W → List (Visit W) → List (HealthResponse W)
  handle_all trunc h [] = []
  handle_all trunc h (v ∷ rest) =
      let (r, kept) = handle_health trunc v h in r ∷ handle_all trunc kept rest
