-- ===== src/Process/Launch.antt =====
-- Which starts become a trader.
use cryptotrader.Prelude.{◌≡◌, ◌↔◌, ◌⊎◌, false, ◌==◌, string_eq, true, ◌||◌, ◌&&◌, arith}
use cryptotrader.Process.{Args, Setup, monitors, trades, main}

-- A Trader is started exactly if the lock was tried and free; the lock is tried exactly if no
-- monitor was asked for, and the mode is not production or both keys are there; and the start is a
-- monitor exactly if one was asked for, or the lock was tried and held and a screen was asked for.
pub main_start :
    (a : Args) (s : Setup)
    → (((main a s).start ≡ trades) ↔ (((main a s).lock_tried ≡ true) × (s.lock_free ≡ true)))
      × (((main a s).lock_tried ≡ true) ↔ (
          (a.monitor_only ≡ false)
          × ((s.active == "production" && (s.kraken_api_key == "" || s.kraken_api_secret == ""))
              ≡ false)))
      × (((main a s).start ≡ monitors) ↔ (
          (a.monitor_only ≡ true)
          ⊎ (((main a s).lock_tried ≡ true) × (s.lock_free ≡ false) × (a.tui ≡ true))))
unfolding main
main_start a s = ground arith
