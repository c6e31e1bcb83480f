-- ===== src/Backfill/Order.antt =====
-- The query and the ids: a change of the rows that keeps what the query reads commutes with it.
use cryptotrader.Prelude.{
  ℕ, suc, String, ◌≡◌, refl, sym, ap, ◌∙◌, Bool, List, [], ◌∷◌, map, filter, enumerate, arith,
}
use cryptotrader.Models.{Trade}
use cryptotrader.Models.Time.{DateTime}
use cryptotrader.Database.{Database, query_trades, trade_matches, order_by, insert_by}
use cryptotrader.Backfill.{none, numbered_rows, in_mode}

module _ {A B : Type 0} (f : A → B) where
  filter_through :
      (p : B → Bool) (q : A → Bool) (xs : List A)
      → ((a : A) → p (f a) ≡ q a)
      → filter p (map f xs) ≡ map f (filter q xs)
  filter_through p q [] h = refl
  filter_through p q (x ∷ xs) h = ground (arith, h x, filter_through p q xs h)

  module _ (to : B → DateTime) (from : A → DateTime) (h : (a : A) → to (f a) ≡ from a) where
    insert_by-map :
        (x : A) (xs : List A) → insert_by to (f x) (map f xs) ≡ map f (insert_by from x xs)
    unfolding insert_by
    insert_by-map x [] = refl
    insert_by-map x (y ∷ ys) = ground (arith, h x, h y, insert_by-map x ys)

    order_by-map : (xs : List A) → order_by to (map f xs) ≡ map f (order_by from xs)
    unfolding order_by
    order_by-map [] = refl
    order_by-map (x ∷ xs) = rw (order_by-map xs) (insert_by-map x (order_by from xs))

map-enumerate : {A : Type 0} (n : ℕ) (xs : List A) → map (λ r. r.1) (enumerate n xs) ≡ xs
map-enumerate n [] = refl
map-enumerate n (x ∷ xs) = ap (λ l. x ∷ l) (map-enumerate (suc n) xs)

module _ {W : Type 0} where
  -- The trades of the rows are those of the query.
  pub map-numbered_rows :
      (db : Database W) (mode : String)
      → map (λ r. r.1) (numbered_rows mode db.trades) ≡ query_trades db (in_mode mode)
  unfolding numbered_rows query_trades
  map-numbered_rows db mode =
      sym (order_by-map (λ r. r.1) (λ t. t.timestamp) (λ r. r.1.timestamp) (λ r. refl) _)
      ∙ ap (order_by (λ t. t.timestamp)) (
          sym (
            filter_through (λ r. r.1) (trade_matches (in_mode mode))
              (λ r. trade_matches (in_mode mode) r.1) (enumerate 0 db.trades) (λ r. refl))
          ∙ ap (filter (trade_matches (in_mode mode))) (map-enumerate 0 db.trades))

  -- What a row is but for its realized figure.
  abbrev pub bare : Trade W → Trade W
  bare t = record t { pnl = none }

  abbrev pub bare_row : ℕ × Trade W → ℕ × Trade W
  bare_row r = (r.0, bare r.1)

  enumerate-bare :
      (n : ℕ) (ts : List (Trade W)) → enumerate n (map bare ts) ≡ map bare_row (enumerate n ts)
  enumerate-bare n [] = refl
  enumerate-bare n (t ∷ ts) = ap (λ l. (n, bare t) ∷ l) (enumerate-bare (suc n) ts)

  pub numbered_rows-bare :
      (mode : String) (ts : List (Trade W))
      → numbered_rows mode (map bare ts) ≡ map bare_row (numbered_rows mode ts)
  unfolding numbered_rows trade_matches
  numbered_rows-bare mode ts =
      ap
        (λ rows.
          order_by (λ r. r.1.timestamp) (filter (λ r. trade_matches (in_mode mode) r.1) rows))
        (enumerate-bare 0 ts)
      ∙ ap (order_by (λ r. r.1.timestamp)) (
          filter_through bare_row (λ r. trade_matches (in_mode mode) r.1)
            (λ r. trade_matches (in_mode mode) r.1) (enumerate 0 ts) (λ r. refl))
      ∙ order_by-map bare_row (λ r. r.1.timestamp) (λ r. r.1.timestamp) (λ r. refl) _
