-- ===== src/Strategy/Rollback.antt =====
-- What a rollback restores, and the form of every proposal: a strategy flips its belief only with
-- a rollback armed.
use cryptotrader.Prelude.{
  Error, ◌≡◌, refl, Bool, true, false, Option, none, some, Result, ok, raise, ◌>>=◌, if◌then◌else◌,
}
use cryptotrader.Models.{Signal, buy_signal, sell_signal}
use cryptotrader.Strategy.Belief.{
  Base, Position, arm_rollback, on_order_rejected, on_order_filled, set_back,
}
use cryptotrader.Strategy.Threshold.{flag_only, set_flag}
use cryptotrader.Strategy.Bollinger.{flag_and_entry}

module _ {W : Type 0} where
  -- Arming, then moving to any position and being refused, gives back the armed position, where the
  -- class lists both attributes; a class that lists the flag alone gets the flag back and leaves
  -- the entry price. Either way nothing stays pending, and a second refusal changes nothing.
  pub rollback_restores :
      (b : Base W) (p : Position W)
      → let full = on_order_rejected (record (arm_rollback flag_and_entry b) { position = p }) in
        let flag = on_order_rejected (record (arm_rollback flag_only b) { position = p }) in
        (full.position ≡ b.position)
        × (flag.position.in_position ≡ b.position.in_position)
        × (flag.position.entry_price ≡ p.entry_price)
        × (full.pending ≡ none)
        × (flag.pending ≡ none)
        × (on_order_rejected full ≡ full)
        × (on_order_rejected flag ≡ flag)
  unfolding on_order_rejected arm_rollback set_back
  rollback_restores b p = (refl, refl, refl, refl, refl, refl, refl)

  -- A fill makes the belief real: a later refusal does not undo it.
  pub filled_is_final :
      (b : Base W)
      → (on_order_rejected (on_order_filled b) ≡ on_order_filled b)
        × ((on_order_filled b).position ≡ b.position)
  unfolding on_order_rejected on_order_filled
  filled_is_final b = (refl, refl)

  -- What a call of `evaluate` has done to the belief `b`: with no signal nothing; with a BUY it
  -- went from flat to long, with a SELL from long to flat, and a refusal takes that back.
  abbrev pub Proposes : Base W → Base W → Option Signal → Type 0
  Proposes b b' none = b' ≡ b
  Proposes b b' (some buy_signal) =
      (b.position.in_position ≡ false)
      × (b'.position.in_position ≡ true)
      × ((on_order_rejected b').position ≡ b.position)
  Proposes b b' (some sell_signal) =
      (b.position.in_position ≡ true)
      × (b'.position.in_position ≡ false)
      × ((on_order_rejected b').position ≡ b.position)

  pub set_flag-Proposes :
      (b : Base W)
      → (b.position.in_position ≡ false
          → Proposes b (set_flag (arm_rollback flag_only b) true) (some buy_signal))
        × (b.position.in_position ≡ true
            → Proposes b (set_flag (arm_rollback flag_only b) false) (some sell_signal))
  unfolding on_order_rejected arm_rollback set_back
  set_flag-Proposes b = (λ h. (h, refl, refl), λ h. (h, refl, refl))

  -- The same with the entry price, which moves too.
  pub set_both-Proposes :
      (b : Base W) (p : Position W)
      → let moved = record (arm_rollback flag_and_entry b) { position = p } in
        (b.position.in_position ≡ false → p.in_position ≡ true → Proposes b moved (some buy_signal))
        × (b.position.in_position ≡ true
            → p.in_position ≡ false
            → Proposes b moved (some sell_signal))
  unfolding on_order_rejected arm_rollback set_back
  set_both-Proposes b p = (λ h k. (h, k, refl), λ h k. (h, k, refl))

  -- The same of a step that may raise, over a state `S` with its belief.
  module _ {S : Type 0} (base : S → Base W) (b : Base W) where
    pub data Good : Result (S × Option Signal) → Type 0 where
      returned : (r : S × Option Signal) → Proposes b (base (r.0)) (r.1) → Good (ok r)
      raised : (e : Error) → Good (raise e)

    pub Good-bind :
        {A : Type 0} (m : Result A) (f : A → Result (S × Option Signal))
        → ((a : A) → Good (f a))
        → Good (m >>= f)
    Good-bind (ok a) f h = h a
    Good-bind (raise e) f h = raised e

    pub Good-if :
        (c : Bool) (x y : Result (S × Option Signal))
        → (c ≡ true → Good x)
        → (c ≡ false → Good y)
        → Good (if c then x else y)
    Good-if true x y h k = h refl
    Good-if false x y h k = k refl

    -- The same with the database beside.
    module _ {D : Type 0} where
      pub data Kept : Result (S × D × Option Signal) → Type 0 where
        kept : (r : S × D × Option Signal) → Proposes b (base (r.0)) (r.2) → Kept (ok r)
        broken : (e : Error) → Kept (raise e)

      pub Kept-ok : {r : S × D × Option Signal} → Kept (ok r) → Proposes b (base (r.0)) (r.2)
      Kept-ok (kept r h) = h

      pub Kept-bind :
          {A : Type 0} (m : Result A) (f : A → Result (S × D × Option Signal))
          → ((a : A) → Kept (f a))
          → Kept (m >>= f)
      Kept-bind (ok a) f h = h a
      Kept-bind (raise e) f h = broken e

      -- No candle completed, or the decision on one that did.
      pub Kept-completed :
          {A : Type 0} (completed : Option A) (s : S) (decide : Result (S × Option Signal)) (d : D)
          → base s ≡ b
          → Good decide
          → Kept (
              (elim completed [ none ↦ ok (s, none) | some _ ↦ decide ]) >>= λ (t, g). ok (t, d, g))
      Kept-completed none s decide d e h = kept (s, d, none) e
      Kept-completed (some a) s _ d e (returned r h) = kept (r.0, d, r.1) h
      Kept-completed (some a) s _ d e (raised x) = broken x
