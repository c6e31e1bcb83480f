-- ===== src/Health/Tests.antt =====
-- Three visits, the second within the time of the first one's checks, in whole seconds.
use cryptotrader.Prelude.{ℕ, ◌≡◌, refl, String, none, some, List, [], ◌∷◌, map, Option}
use cryptotrader.Prelude.Int.{ℤ, pos, pos_part, ◌-ℤ◌}
use cryptotrader.Float.Cents.{cents_float}
use cryptotrader.Health.{
  Attempt, answered, failed, Health, Visit, handle_health, handle_all, cache_is_stale,
  check_database, check_kraken,
}
use cryptotrader.Health.Cache.{AreRecent, handle_all-AreRecent}

abbrev start : Health ℤ
start = record {
  cached_result = none;
  cached_at = pos 0;
  start_time = pos 40;
  deployed_at = "unknown";
}

abbrev visit : ℕ → Attempt (Option String) → Visit ℤ
visit now kraken = record {
  asked_at = pos now;
  checked_at = pos now;
  answered_at = pos now;
  database = answered tt;
  kraken = kraken;
  mode = "test";
}

abbrev visits : List (Visit ℤ)
visits =
    visit 100 (answered (some "online"))
    ∷ visit 109 (failed "timeout")
    ∷ visit 110 (failed "timeout")
    ∷ []

statuses :
    map {B = ℕ × ℕ} (λ r. (r.status, r.uptime_seconds)) (handle_all pos_part start visits)
    ≡ (200, 60) ∷ (200, 69) ∷ (503, 70) ∷ []
unfolding handle_all handle_health cache_is_stale check_database check_kraken ◌-ℤ◌
statuses = refl

handle_all-AreRecent_example : AreRecent [] visits (handle_all pos_part start visits)
handle_all-AreRecent_example = handle_all-AreRecent pos_part start visits refl
