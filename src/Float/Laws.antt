-- ===== src/Float/Laws.antt =====
-- What proofs assume of floats. `IsOrdered` is the order on numbers that are not NaN. `IsExact` is
-- the case in which sums do not round: the values are whole multiples of one unit, as quantities
-- in units of 1e-8 are, and small enough for a float to hold each sum.
use cryptotrader.Prelude.{List, [], ◌∷◌, ◌≡◌, ◌⊎◌, true, not}
use cryptotrader.Prelude.Int.{ℤ, pos, ◌+ℤ◌, ◌-ℤ◌, leb_ℤ, ltb_ℤ}
use cryptotrader.Float.{Float, ◌+◌, ◌-◌, neg, lit, lt, le}

infix 4 ◌≼◌
abbrev pub ◌≼◌ : {W : Type 0} ⦃fl : Float W⦄ → W → W → Type 0
x ≼ y = le x y ≡ true

pub record IsOrdered (W : Type 0) ⦃fl : Float W⦄ : Type 0 where
  pub le_refl : (x : W) → x ≼ x
  pub le_trans : (x y z : W) → x ≼ y → y ≼ z → x ≼ z
  pub le_total : (x y : W) → (x ≼ y) ⊎ (y ≼ x)
  pub lt-not_le : (x y : W) → lt x y ≡ not (le y x)

pub record IsExact (W : Type 0) ⦃fl : Float W⦄ : Type 0 where
  pub units : W → ℤ
  pub units-injective : (x y : W) → units x ≡ units y → x ≡ y
  pub units-zero : units (lit 0) ≡ pos 0
  pub units-add : (x y : W) → units (x + y) ≡ units x +ℤ units y
  pub units-sub : (x y : W) → units (x - y) ≡ units x -ℤ units y
  pub units-neg : (x : W) → units (neg x) ≡ pos 0 -ℤ units x
  pub units-sum_nil : units (fl.sum []) ≡ pos 0
  pub units-sum_cons :
      (x : W) (xs : List W) → units (fl.sum (x ∷ xs)) ≡ units x +ℤ units (fl.sum xs)
  pub le-units : (x y : W) → le x y ≡ leb_ℤ (units x) (units y)
  pub lt-units : (x y : W) → lt x y ≡ ltb_ℤ (units x) (units y)
