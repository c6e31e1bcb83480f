-- ===== src/Statistics/Daily.antt =====
-- The figure that the daily loss limit is tested on.
use cryptotrader.Prelude.{string_eq, String, ◌≡◌, refl, ap, List, [], ◌∷◌, foldl, arith, All, some}
use cryptotrader.Prelude.Int.{int_laws}
use cryptotrader.Prelude.Dict.{get_or}
use cryptotrader.Float.{Float, lit}
use cryptotrader.Float.Laws.{IsExact}
use cryptotrader.Models.{Trade, Side}
use cryptotrader.Models.Time.{DateTime, midnight}
use cryptotrader.Database.{Database, no_filters, query_trades}
use cryptotrader.Statistics.{
  Tally, empty_tally, count_trade, close_oldest, tally, stats_of, result_of, compute, daily_pnl,
}

module _ {W : Type 0} ⦃fl : Float W⦄ where
  abbrev pub today : Database W → String → DateTime → List (Trade W)
  today db mode now =
      query_trades db (record no_filters { mode = some mode; since = some (midnight now) })

  -- No buy is open, and no round trip is booked.
  record IsBlank (s : Tally W) : Type 0 where
    no_gains : s.gains ≡ []
    no_losses : s.losses ≡ []
    no_buys : s.open_buys ≡ []

  count_sell-IsBlank :
      (s : Tally W) (t : Trade W) → t.side ≡ Side.sell → IsBlank s → IsBlank (count_trade s t)
  unfolding count_trade close_oldest
  count_sell-IsBlank s t sold v =
      let none_open : get_or t.pair [] s.open_buys ≡ [] = ap (get_or t.pair []) v.no_buys in
      ground arith

  foldl_sells-IsBlank :
      (ts : List (Trade W)) (s : Tally W)
      → All (λ t. t.side ≡ Side.sell) ts
      → IsBlank s
      → IsBlank (foldl count_trade s ts)
  foldl_sells-IsBlank [] s h v = v
  foldl_sells-IsBlank (t ∷ ts) s (sold, h) v =
      foldl_sells-IsBlank ts (count_trade s t) h (count_sell-IsBlank s t sold v)

  stats_of_sells :
      IsExact W
      → (ts : List (Trade W)) → All (λ t. t.side ≡ Side.sell) ts
      → (stats_of ts).total_pnl ≡ lit 0
  unfolding stats_of result_of tally
  stats_of_sells x [] h = refl
  stats_of_sells x (t ∷ ts) h =
      let blank =
        foldl_sells-IsBlank (t ∷ ts) empty_tally h
          (record { no_gains = refl; no_losses = refl; no_buys = refl }) in
      rw (blank.no_gains, blank.no_losses)
        (x.units-injective _ _ (rw (x.units-add, x.units-sum_nil, x.units-zero) (omega int_laws)))

  -- Where sums are exact, a day on which nothing was bought has a realized figure of zero, whatever
  -- was sold: a sell that closes a buy of an earlier day is matched to none.
  pub daily_pnl_sells_only :
      IsExact W
      → (db : Database W) (mode : String) (now : DateTime)
      → All (λ t. t.side ≡ Side.sell) (today db mode now)
      → daily_pnl db mode now ≡ lit 0
  unfolding daily_pnl compute
  daily_pnl_sells_only x db mode now h = stats_of_sells x (today db mode now) h
