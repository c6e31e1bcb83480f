-- ===== src/Maker/Ticks.antt =====
-- cryptotrader/maker.py: what a tick, and the passing of time, leave of the book.
use cryptotrader.Prelude.{
  [], ◌∷◌, All-append, if-elim, All, is_some, String, Bool, true, false, ◌≡◌, refl, ap, ◌∙◌, arith,
  ◌&&◌, ◌||◌, ◌==◌, string_eq, pair_eq, Option, none, some, filter,
}
use cryptotrader.Prelude.Dict.{lookup, keys, IsDict}
use cryptotrader.Float.{Float, le, gt}
use cryptotrader.Models.{PriceTick}
use cryptotrader.Models.Time.{DateTime, not_after}
use cryptotrader.Desk.{Desk, RestingEntry}
use cryptotrader.Maker.{
  ◌∷◌, List, at_key, Side, each_key, Trade, Writes, drift_pct, fill, no_fill, tick_entry, on_tick,
  expire_entry, expire_due,
}
use cryptotrader.Maker.Loop.{
  elem-filter, elem-keys, left, Resolves, each_key-lookup, each_key-IsDict,
}

module _ {W : Type 0} ⦃fl : Float W⦄ where
  -- What a fill of a tick is.
  abbrev pub Reached : W → Trade W → Type 0
  Reached price t = (le price t.price ≡ true) × (t.side ≡ Side.buy) × (t.pnl ≡ none)

module _ {W C : Type 0} ⦃fl : Float W⦄ where
  -- Whether a tick resolves an entry of its pair.
  abbrev pub tick_resolves : W → DateTime → RestingEntry W C → Bool
  tick_resolves price now e =
      le price e.limit_price || gt (drift_pct e price) e.max_drift_pct || not_after e.deadline now

  pub tick_entry-Resolves :
      (writes : Writes) (price : W) (now : DateTime)
      → Resolves {C = C} (tick_resolves price now) (tick_entry writes price now)
  unfolding tick_entry fill no_fill
  tick_entry-Resolves writes price now k e d = ground arith

  pub left-keys :
      (res : RestingEntry W C → Bool) (b : Bool) (o : Option (RestingEntry W C))
      → left res (b && is_some o) o ≡ left res b o
  left-keys res b none = refl
  left-keys res true (some x) = refl
  left-keys res false (some x) = refl

  -- After a tick an entry is in the book as before, if it is of another pair; an entry of the
  -- tick's pair is gone exactly if the price is at or under its limit, or above it by more than
  -- `max_drift_pct`, or its deadline is not after the clock, and is unchanged otherwise. No key
  -- comes up twice.
  pub on_tick-lookup :
      (writes : Writes) (tick : PriceTick W) (now : DateTime) (d : Desk W C) (j : String × String)
      → IsDict d.resting
      → let after = (on_tick writes tick now d).1.resting in
        (lookup j after
          ≡ left (tick_resolves tick.last now) (j.0 == tick.pair) (lookup j d.resting))
        × IsDict after
  unfolding on_tick
  on_tick-lookup writes tick now d j v =
      let res = tick_resolves tick.last now in
      let body = tick_entry writes tick.last now in
      let resolves = tick_entry-Resolves writes tick.last now in
      let of_pair = λ (k : String × String). k.0 == tick.pair in
      let ks = filter of_pair (keys d.resting) in
      (
        each_key-lookup res body resolves j ks d v
            ∙ ap (λ b. left res b (lookup j d.resting))
                (elem-filter of_pair j (keys d.resting)
                  ∙ ap (λ b. of_pair j && b) (elem-keys j d.resting))
            ∙ left-keys res (of_pair j) (lookup j d.resting),
        each_key-IsDict res body resolves ks d v,
      )

  pub expire_entry-Resolves :
      (writes : Writes) (now : DateTime)
      → Resolves {C = C} (λ e. not_after e.deadline now) (expire_entry {W = W} writes now)
  unfolding expire_entry no_fill
  expire_entry-Resolves writes now k e d = ground arith

  -- After `expire_due` an entry is in the book, unchanged, exactly if it was there and its deadline
  -- is after the clock. No key comes up twice.
  pub expire_due-lookup :
      (writes : Writes) (now : DateTime) (d : Desk W C) (j : String × String)
      → IsDict d.resting
      → let after = (expire_due writes now d).resting in
        (lookup j after ≡ left (λ e. not_after e.deadline now) true (lookup j d.resting))
        × IsDict after
  unfolding expire_due
  expire_due-lookup writes now d j v =
      let due = λ (e : RestingEntry W C). not_after e.deadline now in
      let body = expire_entry writes now in
      let resolves = expire_entry-Resolves writes now in
      (
        each_key-lookup due body resolves j (keys d.resting) d v
            ∙ ap (λ b. left due b (lookup j d.resting)) (elem-keys j d.resting)
            ∙ left-keys due true (lookup j d.resting),
        each_key-IsDict due body resolves (keys d.resting) d v,
      )

  at_key-Reached :
      (writes : Writes) (price : W) (now : DateTime) (k : String × String) (d : Desk W C)
      (found : Option (RestingEntry W C))
      → All (Reached price) (at_key (tick_entry writes price now) k d found).0
  unfolding tick_entry fill
  at_key-Reached writes price now k d none = tt
  at_key-Reached writes price now k d (some e) =
      if-elim (λ (r : List (Trade W) × Desk W C). All (Reached price) r.0) (le price e.limit_price)
        _ _ (λ h. ((h, refl, refl), tt))
        (λ _.
          if-elim (λ (r : List (Trade W) × Desk W C). All (Reached price) r.0)
            (gt (drift_pct e price) e.max_drift_pct || not_after e.deadline now) _ _ (λ _. tt)
            (λ _. tt))

  each_key-Reached :
      (writes : Writes) (price : W) (now : DateTime) (ks : List (String × String)) (d : Desk W C)
      → All (Reached price) (each_key (tick_entry writes price now) ks d).0
  unfolding each_key
  each_key-Reached writes price now [] d = tt
  each_key-Reached writes price now (k ∷ ks) d =
      All-append (Reached price) _ _ (at_key-Reached writes price now k d (lookup k d.resting))
        (each_key-Reached writes price now ks _)

  -- Every fill of a tick is a buy with no realized figure, at a limit that the tick's price is at
  -- or under.
  pub on_tick-Reached :
      (writes : Writes) (tick : PriceTick W) (now : DateTime) (d : Desk W C)
      → All (Reached tick.last) (on_tick writes tick now d).0
  unfolding on_tick
  on_tick-Reached writes tick now d =
      each_key-Reached writes tick.last now (filter (λ k. k.0 == tick.pair) (keys d.resting)) d
