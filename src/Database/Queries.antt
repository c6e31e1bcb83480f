-- ===== src/Database/Queries.antt =====
-- What the queries of the trade log return.
use mathlib.Core.List.{Perm, append-nil}
use cryptotrader.Prelude.{
  String, ◌≤◌, ◌<◌, ◌≡◌, ◌≢◌, Bool, false, inl, inr, some, List, [], ◌∷◌, ◌++◌, ok, ℕ, arith, All,
  filter, filter-append, Bool-cases, string_eq, if◌then◌else◌, ap,
}
use cryptotrader.Models.{Trade}
use cryptotrader.Models.Time.{instant}
use cryptotrader.Database.Order.{Sorted, order_by-Sorted, order_by-perm, order_by-append_last}
use cryptotrader.Database.{
  Database, Filters, insert_trade, query_trades, trade_matches, text_matches,
}

text_matches-ne :
    (wanted s : String) → wanted ≢ "" → s ≢ wanted → text_matches (some wanted) s ≡ false
unfolding text_matches
text_matches-ne wanted s h k =
    ground (arith, string_eq.beq_iff wanted "", string_eq.beq_iff s wanted)

module _ {W : Type 0} where
  -- A query of the trade log returns exactly the rows that match, oldest first.
  pub query_trades_lem :
      (db : Database W) (f : Filters)
      → Sorted (λ t. t.timestamp) (query_trades db f)
        × Perm (query_trades db f) (filter (trade_matches f) db.trades)
  unfolding query_trades
  query_trades_lem db f = (order_by-Sorted _ _, order_by-perm _ _)

  -- The rows are dated before `t`.
  abbrev pub AllBefore : Trade W → List (Trade W) → Type 0
  AllBefore t = All λ u. instant u.timestamp < instant t.timestamp

  abbrev NoneAfter : Trade W → List (Trade W) → Type 0
  NoneAfter t = All λ u. instant u.timestamp ≤ instant t.timestamp

  filter-NoneAfter :
      (p : Trade W → Bool) (t : Trade W) (us : List (Trade W))
      → AllBefore t us
      → NoneAfter t (filter p us)
  filter-NoneAfter p t [] h = tt
  filter-NoneAfter p t (u ∷ us) (a, h) = elim (Bool-cases (p u)) [
    | inl kept ↦ rw kept (omega arith, filter-NoneAfter p t us h)
    | inr dropped ↦ rw dropped (filter-NoneAfter p t us h)
  ]

  insert_trade-trades :
      (db : Database W) (t : Trade W) (r : ℕ × Database W)
      → insert_trade db t ≡ ok r
      → r.1.trades ≡ db.trades ++ t ∷ []
  unfolding insert_trade
  insert_trade-trades db t r e = ground arith

  -- A trade that is recorded with a date after all others comes last in each query that it matches,
  -- and does not show in the others.
  pub query_trades-insert_trade :
      (db : Database W) (t : Trade W) (f : Filters) {r : ℕ × Database W}
      → AllBefore t db.trades
      → insert_trade db t ≡ ok r
      → query_trades r.1 f
        ≡ (if trade_matches f t then query_trades db f ++ t ∷ [] else query_trades db f)
  unfolding query_trades
  query_trades-insert_trade db t f {r} h e =
      rw (insert_trade-trades db t r e, filter-append (trade_matches f) db.trades (t ∷ []))
        (elim (Bool-cases (trade_matches f t)) [
          | inl shown ↦
              rw shown
                (order_by-append_last _ t _ (filter-NoneAfter (trade_matches f) t db.trades h))
          | inr hidden ↦ rw (hidden, append-nil)
        ])

  trade_matches_other_mode :
      (f : Filters) (t : Trade W) (mode : String)
      → f.mode ≡ some mode
      → mode ≢ ""
      → t.mode ≢ mode
      → trade_matches f t ≡ false
  unfolding trade_matches
  trade_matches_other_mode f t mode m ne other =
      ground (arith, text_matches-ne mode t.mode, ap (λ o. text_matches o t.mode) m)

  -- A trade of one mode never shows in a query for another mode.
  pub query_trades_other_mode :
      (db : Database W) (t : Trade W) (f : Filters) (mode : String) {r : ℕ × Database W}
      → insert_trade db t ≡ ok r
      → f.mode ≡ some mode
      → mode ≢ ""
      → t.mode ≢ mode
      → query_trades r.1 f ≡ query_trades db f
  unfolding query_trades
  query_trades_other_mode db t f mode {r} e m ne other = rw (
    insert_trade-trades db t r e,
    filter-append (trade_matches f) db.trades (t ∷ []),
    trade_matches_other_mode f t mode m ne other,
    append-nil,
  )
