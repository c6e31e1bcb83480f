-- ===== src/Backfill/Tests.antt =====
-- Two buys and two sells, of which the second has its figure already.
use cryptotrader.Prelude.{◌≡◌, refl, true, some, List, [], ◌∷◌, All}
use cryptotrader.Prelude.Int.{ℤ, pos, ◌-ℤ◌, ◌*ℤ◌}
use cryptotrader.Float.Cents.{cents_float}
use cryptotrader.Models.{Trade, Side}
use cryptotrader.Database.{
  order_by, insert_by, query_trades, trade_matches, text_matches, since_matches, until_matches,
}
use cryptotrader.Statistics.{tally}
use cryptotrader.Samples.{at, row, db_of}
use cryptotrader.Backfill.{
  in_mode, numbered_rows, close_first, match_trade, compute_backfill, set_pnl, write_rows, backfill,
}
use cryptotrader.Backfill.Figures.{pnls, won, lost, compute_backfill-tally}
use cryptotrader.Backfill.Apply.{AreKept, HasFigure, backfill_applied}

abbrev sold_before : Trade ℤ
sold_before = record (row Side.sell (at 11 0) 90 1 "production") { pnl = some (pos 7) }

abbrev log : List (Trade ℤ)
log =
    row Side.buy (at 8 0) 100 1 "production"
    ∷ row Side.buy (at 9 0) 110 1 "production"
    ∷ row Side.sell (at 10 0) 130 1 "production"
    ∷ sold_before
    ∷ []

abbrev filled : List (Trade ℤ)
filled =
    row Side.buy (at 8 0) 100 1 "production"
    ∷ row Side.buy (at 9 0) 110 1 "production"
    ∷ record (row Side.sell (at 10 0) 130 1 "production") { pnl = some (pos 30) }
    ∷ sold_before
    ∷ []

writes_one : backfill true "production" log ≡ (filled, 1)
unfolding backfill write_rows set_pnl compute_backfill match_trade close_first numbered_rows
    order_by insert_by trade_matches text_matches since_matches until_matches ◌-ℤ◌ ◌*ℤ◌
writes_one = refl

backfill_applied_example :
    let updated = (backfill true "production" log).0 in
    AreKept log updated
    × All (λ r. HasFigure updated r.id) (compute_backfill log "production")
    × (backfill true "production" updated ≡ (updated, 0))
backfill_applied_example = backfill_applied "production" log

compute_backfill-tally_example :
    let s = tally (query_trades (db_of log) (in_mode "production")) in
    let figures = pnls (compute_backfill log "production") in
    (s.gains ≡ won figures) × (s.losses ≡ lost figures)
compute_backfill-tally_example = compute_backfill-tally (db_of log) "production"
