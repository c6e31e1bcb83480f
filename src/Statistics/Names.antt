-- ===== src/Statistics/Names.antt =====
-- cryptotrader/statistics.py, `all_strategies`: the names that the trade log of a mode has.
use cryptotrader.Prelude.{
  false, String, ◌≡◌, refl, ap, ◌∙◌, Bool, Bool-cases, inl, inr, ◌==◌, string_eq, List, [], ◌∷◌,
  arith, ◌||◌, ◌&&◌, map, filter, some,
}
use cryptotrader.Models.{Trade}
use cryptotrader.Models.Time.{DateTime}
use cryptotrader.Database.{Database, no_filters, query_trades, order_by, insert_by, trade_matches}
use cryptotrader.Reconcile.{member, set_of, sorted, text_before}
use cryptotrader.Reconcile.Member.{member-sorted, member-set_of}

module _ {W : Type 0} where
  unfoldable pub all_strategies : Database W → String → List String
  all_strategies db mode =
      sorted text_before
        (set_of (map (λ t. t.strategy) (query_trades db (record no_filters { mode = some mode }))))

  -- Some trade of the list passes the test and is of the strategy.
  abbrev pub has_trade : (Trade W → Bool) → String → List (Trade W) → Bool
  has_trade p name [] = false
  has_trade p name (t ∷ ts) = (p t && t.strategy == name) || has_trade p name ts

  member-insert_by :
      (stamp : Trade W → DateTime) (name : String) (t : Trade W) (ts : List (Trade W))
      → member name (map (λ u. u.strategy) (insert_by stamp t ts))
        ≡ (t.strategy == name || member name (map (λ u. u.strategy) ts))
  unfolding insert_by
  member-insert_by stamp name t [] = refl
  member-insert_by stamp name t (u ∷ ts) = ground (arith, member-insert_by stamp name t ts)

  member-order_by :
      (stamp : Trade W → DateTime) (name : String) (p : Trade W → Bool) (ts : List (Trade W))
      → member name (map (λ u. u.strategy) (order_by stamp (filter p ts))) ≡ has_trade p name ts
  unfolding order_by
  member-order_by stamp name p [] = refl
  member-order_by stamp name p (t ∷ ts) = elim (Bool-cases (p t)) [
    | inl passes ↦ rw passes (
        member-insert_by stamp name t (order_by stamp (filter p ts))
        ∙ ap (λ b. t.strategy == name || b) (member-order_by stamp name p ts))
    | inr fails ↦ rw fails (member-order_by stamp name p ts)
  ]

  pub member-all_strategies :
      (db : Database W) (mode name : String)
      → member name (all_strategies db mode)
        ≡ has_trade (trade_matches (record no_filters { mode = some mode })) name db.trades
  unfolding all_strategies query_trades
  member-all_strategies db mode name =
      member-sorted name _
      ∙ member-set_of name _
      ∙ member-order_by (λ t. t.timestamp) name _ db.trades
