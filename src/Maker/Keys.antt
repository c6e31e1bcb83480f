-- ===== src/Maker/Keys.antt =====
-- cryptotrader/maker.py: one entry for each pair and strategy.
use cryptotrader.Prelude.{
  arith, if◌then◌else◌, ◌==◌, ◌&&◌, not, Bool-cases, inl, inr, true, ◌≡◌, refl, ap, if-elim,
  is_some, string_eq, pair_eq,
}
use cryptotrader.Prelude.Dict.{insert-IsDict, lookup-insert, IsDict, contains, lookup-insert_self}
use cryptotrader.Desk.{Desk, RestingEntry}
use cryptotrader.Maker.{log_call, false, some, lookup, String, key_of, is_resting, add}

module _ {W C : Type 0} where
  -- The entry rests, or another of its key did already.
  pub add-is_resting :
      (x : RestingEntry W C) (d : Desk W C)
      → (is_resting x.pair x.strategy (add x d) ≡ true)
        × ((add x d).db ≡ d.db)
        × ((add x d).sent ≡ d.sent)
  unfolding is_resting add
  add-is_resting x d =
      if-elim
        (λ (e : Desk W C).
          (is_resting x.pair x.strategy e ≡ true) × (e.db ≡ d.db) × (e.sent ≡ d.sent))
        (contains (key_of x) d.resting) _ _ (λ h. (h, refl, refl))
        (λ h. (ap is_some (lookup-insert_self (key_of x) x d.resting), refl, refl))

  -- An entry never takes the place of one that rests: `add` puts it in the book where its pair and
  -- strategy have none, and otherwise leaves the book as it is and calls the newcomer's rollback.
  -- Every other key is untouched, and no key comes up twice.
  pub add_keeps_first :
      (x : RestingEntry W C) (d : Desk W C) (j : String × String)
      → IsDict d.resting
      → let taken = contains (key_of x) d.resting in
        (lookup j (add x d).resting
          ≡ (if key_of x == j && not taken then some x else lookup j d.resting))
        × ((add x d).called ≡ (if taken then log_call x.on_reject d.called else d.called))
        × IsDict (add x d).resting
  unfolding add
  add_keeps_first x d j v = elim (Bool-cases (contains (key_of x) d.resting)) [
    | inl h ↦ rw h (ground arith, refl, v)
    | inr h ↦ rw h (
      ground (arith, lookup-insert (key_of x) j x d.resting),
      refl,
      insert-IsDict (key_of x) x d.resting v,
    )
  ]

  pub add-called :
      (x : RestingEntry W C) (d : Desk W C)
      → contains (key_of x) d.resting ≡ false
      → (add x d).called ≡ d.called
  unfolding add
  add-called x d h = rw h refl

  pub add-has_book : (x : RestingEntry W C) (d : Desk W C) → (add x d).has_book ≡ d.has_book
  unfolding add
  add-has_book x d = ground arith
