-- ===== src/Process/Poll.antt =====
-- The monitor's poller delivers no row twice.
use Prim.Native.Nat.{◌+◌}
use cryptotrader.Prelude.{
  ◌≤◌, ◌≡◌, refl, ap, Bool, Bool-cases, inl, inr, List, [], ◌∷◌, filter, All, arith, leb, some,
}
use cryptotrader.Models.{Trade, RejectedOrder}
use cryptotrader.Models.Time.{DateTime, instant, instant-of_instant, not_after}
use cryptotrader.Database.{
  Database, insert_by, order_by, query_trades, query_rejected_orders, trade_matches, order_matches,
  since_matches, until_matches, text_matches,
}
use cryptotrader.Database.Order.{order_by-All, Sorted, order_by-Sorted}
use cryptotrader.Process.{Poller, since_cursor, move_cursor, new_trades, new_rejects, poll}

module _ {R : Type 0} (stamp : R → DateTime) where
  insert_by-parts :
      (P : R → Type 0) (r : R) (rows : List R) → All P (insert_by stamp r rows) → P r × All P rows
  unfolding insert_by
  insert_by-parts P r [] h = (h.0, tt)
  insert_by-parts P r (s ∷ rows) h = elim (Bool-cases (not_after (stamp r) (stamp s))) [
    | inl before ↦ let h' : All P (r ∷ s ∷ rows) = rw before at h in h'
    | inr after ↦
        let h' : All P (s ∷ insert_by stamp r rows) = rw after at h in
        let (p, rest) = insert_by-parts P r rows h'.1 in (p, (h'.0, rest))
  ]

  order_by-parts : (P : R → Type 0) (rows : List R) → All P (order_by stamp rows) → All P rows
  unfolding order_by
  order_by-parts P [] h = tt
  order_by-parts P (r ∷ rows) h =
      let (p, rest) = insert_by-parts P r (order_by stamp rows) h in (p, order_by-parts P rows rest)

  -- No row is stamped after the cursor that has gone over the rows in order.
  move_cursor-last :
      (t : DateTime) (rows : List R)
      → Sorted stamp rows
      → All (λ r. instant t ≤ instant (stamp r)) rows
      → (instant t ≤ instant (move_cursor stamp t rows))
        × All (λ r. instant (stamp r) ≤ instant (move_cursor stamp t rows)) rows
  move_cursor-last t [] s h = (omega arith, tt)
  move_cursor-last t (r ∷ rows) (a, s) (b, h) =
      let (up, rest) = move_cursor-last (stamp r) rows s a in (omega arith, (up, rest))

  module _ (fresh : DateTime → R → Bool)
      (fresh_lem : (t : DateTime) (r : R)
        → fresh t r ≡ leb (instant t + 1) (instant (stamp r))) where
    selected_later :
        (t : DateTime) (rows : List R)
        → All (λ r. instant t ≤ instant (stamp r)) (filter (fresh t) rows)
    selected_later t [] = tt
    selected_later t (r ∷ rows) = ground (arith, fresh_lem t r, selected_later t rows)

    unselected_before :
        (t last : DateTime) (rows : List R)
        → instant t ≤ instant last
        → All (λ r. instant (stamp r) ≤ instant last) (filter (fresh t) rows)
        → All (λ r. instant (stamp r) ≤ instant last) rows
    unselected_before t last [] up h = tt
    unselected_before t last (r ∷ rows) up h =
        ground (arith, fresh_lem t r, unselected_before t last rows)

    none_fresh :
        (last : DateTime) (rows : List R)
        → All (λ r. instant (stamp r) ≤ instant last) rows
        → filter (fresh last) rows ≡ []
    none_fresh last [] h = refl
    none_fresh last (r ∷ rows) h = ground (arith, fresh_lem last r, none_fresh last rows)

    -- Where the cursor has gone over the selected rows, none is selected again.
    pub selected_once :
        (t : DateTime) (rows : List R)
        → filter (fresh (move_cursor stamp t (order_by stamp (filter (fresh t) rows)))) rows ≡ []
    selected_once t rows =
        let found = order_by stamp (filter (fresh t) rows) in
        let (up, seen) =
          move_cursor-last t found (order_by-Sorted stamp (filter (fresh t) rows))
            (order_by-All stamp _ _ (selected_later t rows)) in
        let last = move_cursor stamp t found in
        none_fresh last rows (unselected_before t last rows up (order_by-parts _ _ seen))

module _ {W : Type 0} where
  trade_fresh :
      (t : DateTime) (r : Trade W)
      → trade_matches (since_cursor t) r ≡ leb (instant t + 1) (instant r.timestamp)
  unfolding trade_matches text_matches since_matches until_matches
  trade_fresh t r = ground (arith, instant-of_instant (instant t + 1))

  reject_fresh :
      (t : DateTime) (r : RejectedOrder W)
      → order_matches (since_cursor t) r ≡ leb (instant t + 1) (instant r.timestamp)
  unfolding order_matches text_matches since_matches until_matches
  reject_fresh t r = ground (arith, instant-of_instant (instant t + 1))

module _ {W : Type 0} (db : Database W) (p : Poller W) where
  new_trades-poll : new_trades db (poll (some db) p) ≡ []
  unfolding new_trades poll query_trades order_by
  new_trades-poll = ap (order_by (λ (t : Trade W). t.timestamp)) (
      selected_once (λ (t : Trade W). t.timestamp) (λ t. trade_matches (since_cursor t)) trade_fresh
        p.last_trade_ts db.trades)

  new_rejects-poll : new_rejects db (poll (some db) p) ≡ []
  unfolding new_rejects poll query_rejected_orders order_by
  new_rejects-poll = ap (order_by (λ (r : RejectedOrder W). r.timestamp)) (
      selected_once (λ (r : RejectedOrder W). r.timestamp) (λ t. order_matches (since_cursor t))
        reject_fresh p.last_reject_ts db.rejected_orders)

  poll_nothing : new_trades db p ≡ [] → new_rejects db p ≡ [] → poll (some db) p ≡ p
  unfolding poll order_by
  poll_nothing h k = rw (h, k) refl

module _ {W : Type 0} where
  -- A round over a log that has not changed since the last delivers nothing and moves no cursor,
  -- whether or not the queue had room.
  pub poll_again :
      (db : Database W) (p : Poller W) → poll (some db) (poll (some db) p) ≡ poll (some db) p
  poll_again db p =
      poll_nothing db (poll (some db) p) (new_trades-poll db p) (new_rejects-poll db p)
