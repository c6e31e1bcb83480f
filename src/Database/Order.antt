-- ===== src/Database/Order.antt =====
-- `ORDER BY timestamp ASC` sorts, keeps the rows, and leaves a list alone that is sorted already.
use mathlib.Core.List.{Perm}
use mathlib.Core.List.Perm
use cryptotrader.Prelude.{◌≤◌, ◌≡◌, refl, inl, inr, List, [], ◌∷◌, ◌++◌, All, arith, Bool-cases}
use cryptotrader.Models.Time.{DateTime, instant, not_after}
use cryptotrader.Database.{insert_by, order_by}

module _ {R : Type 0} (stamp : R → DateTime) where
  abbrev pub Sorted : List R → Type 0
  Sorted [] = Unit
  Sorted (r ∷ rows) = All (λ s. instant (stamp r) ≤ instant (stamp s)) rows × Sorted rows

  pub insert_by-All :
      (P : R → Type 0) (r : R) (rows : List R) → P r → All P rows → All P (insert_by stamp r rows)
  unfolding insert_by
  insert_by-All P r [] p h = (p, tt)
  insert_by-All P r (s ∷ rows) p (q, h) = elim (Bool-cases (not_after (stamp r) (stamp s))) [
    | inl before ↦ rw before (p, (q, h))
    | inr after ↦ rw after (q, insert_by-All P r rows p h)
  ]

  pub order_by-All : (P : R → Type 0) (rows : List R) → All P rows → All P (order_by stamp rows)
  unfolding order_by
  order_by-All P [] h = tt
  order_by-All P (r ∷ rows) h =
      insert_by-All P r (order_by stamp rows) h.0 (order_by-All P rows h.1)

  All-le_trans :
      (r s : R) (rows : List R)
      → instant (stamp r) ≤ instant (stamp s)
      → All (λ t. instant (stamp s) ≤ instant (stamp t)) rows
      → All (λ t. instant (stamp r) ≤ instant (stamp t)) rows
  All-le_trans r s [] h a = tt
  All-le_trans r s (t ∷ rows) h (b, a) = (omega arith, All-le_trans r s rows h a)

  insert_by-Sorted : (r : R) (rows : List R) → Sorted rows → Sorted (insert_by stamp r rows)
  unfolding insert_by
  insert_by-Sorted r [] h = (tt, tt)
  insert_by-Sorted r (s ∷ rows) (a, h) = elim (Bool-cases (not_after (stamp r) (stamp s))) [
    | inl before ↦
        let le : instant (stamp r) ≤ instant (stamp s) = ground arith in
        rw before ((le, All-le_trans r s rows le a), (a, h))
    | inr after ↦ rw after (insert_by-All _ r rows (ground arith) a, insert_by-Sorted r rows h)
  ]

  pub order_by-Sorted : (rows : List R) → Sorted (order_by stamp rows)
  unfolding order_by
  order_by-Sorted [] = tt
  order_by-Sorted (r ∷ rows) = insert_by-Sorted r (order_by stamp rows) (order_by-Sorted rows)

  insert_by-perm : (r : R) (rows : List R) → Perm (insert_by stamp r rows) (r ∷ rows)
  unfolding insert_by
  insert_by-perm r [] = Perm.refl _
  insert_by-perm r (s ∷ rows) = elim (Bool-cases (not_after (stamp r) (stamp s))) [
    | inl before ↦ rw before (Perm.refl _)
    | inr after ↦ rw after (Perm.trans (Perm.cons s (insert_by-perm r rows)) (Perm.swap r s rows))
  ]

  pub order_by-perm : (rows : List R) → Perm (order_by stamp rows) rows
  unfolding order_by
  order_by-perm [] = Perm.refl _
  order_by-perm (r ∷ rows) =
      Perm.trans (insert_by-perm r (order_by stamp rows)) (Perm.cons r (order_by-perm rows))

  -- A row of the last timestamp that is inserted last comes out last.
  insert_by-append_last :
      (r s : R) (rows : List R)
      → instant (stamp r) ≤ instant (stamp s)
      → insert_by stamp r (rows ++ s ∷ []) ≡ insert_by stamp r rows ++ s ∷ []
  unfolding insert_by
  insert_by-append_last r s [] h = ground arith
  insert_by-append_last r s (t ∷ rows) h = ground (arith, insert_by-append_last r s rows h)

  pub order_by-append_last :
      (s : R) (rows : List R)
      → All (λ r. instant (stamp r) ≤ instant (stamp s)) rows
      → order_by stamp (rows ++ s ∷ []) ≡ order_by stamp rows ++ s ∷ []
  unfolding order_by
  order_by-append_last s [] h = unfold insert_by in refl
  order_by-append_last s (r ∷ rows) (a, h) =
      rw (order_by-append_last s rows h) (insert_by-append_last r s (order_by stamp rows) a)
