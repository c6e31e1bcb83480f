-- ===== src/Float.antt =====
-- Python's `float`, which the program takes its prices, quantities and indicators in. It is a
-- parameter: a type `W` with the operations that the program calls. `sum`, `floor`, the square root
-- (`** 0.5`), the square (`** 2`) and `round(x, 4)` are Python's own and are parameters too; `max`,
-- `min` and `abs` are written out as Python defines them. The module `Laws` names what proofs
-- assume of `W`.
pub mod Laws
pub mod Order
pub mod Cents
use cryptotrader.Prelude.{ℕ, Bool, List, if◌then◌else◌, Result, ok, raise, zero_division, nat_beq}

pub record Float (W : Type 0) : Type 0 where
  pub add : W → W → W
  pub sub : W → W → W
  pub mul : W → W → W
  pub quot : W → W → W
  pub neg : W → W
  pub lt : W → W → Bool
  pub le : W → W → Bool
  pub eq : W → W → Bool
  -- the literal 0.0, 1.0, 100.0, 1e8 and so on
  pub lit : ℕ → W
  pub sum : List W → W
  pub floor : W → W
  pub sqrt : W → W
  pub square : W → W
  pub round4 : W → W

module _ {W : Type 0} ⦃fl : Float W⦄ where
  infixl 65 ◌+◌ ◌-◌
  infixl 70 ◌*◌
  abbrev pub ◌+◌ : W → W → W
  ◌+◌ = fl.add

  abbrev pub ◌-◌ : W → W → W
  ◌-◌ = fl.sub

  abbrev pub ◌*◌ : W → W → W
  ◌*◌ = fl.mul

  abbrev pub neg : W → W
  neg = fl.neg

  abbrev pub lit : ℕ → W
  lit = fl.lit

  -- `x < y`, `x <= y`, `x > y`, `x >= y`
  abbrev pub lt : W → W → Bool
  lt = fl.lt

  abbrev pub le : W → W → Bool
  le = fl.le

  abbrev pub gt : W → W → Bool
  gt x y = fl.lt y x

  abbrev pub ge : W → W → Bool
  ge x y = fl.le y x

  -- `x / y`, which raises at 0.0
  unfoldable pub div : W → W → Result W
  div x y = if fl.eq y (fl.lit 0) then raise zero_division else ok (fl.quot x y)

  -- `x / n` by an `int`
  unfoldable pub div_int : W → ℕ → Result W
  div_int x n = if nat_beq n 0 then raise zero_division else ok (fl.quot x (fl.lit n))

  -- `max(x, y)` and `min(x, y)` return the first argument on a tie.
  abbrev pub max : W → W → W
  max x y = if lt x y then y else x

  abbrev pub min : W → W → W
  min x y = if lt y x then y else x

  abbrev pub abs : W → W
  abs x = if lt x (lit 0) then neg x else x

  -- `math.floor(x * 1e8) / 1e8`
  unfoldable pub floor_8dp : W → W
  floor_8dp x = fl.quot (fl.floor (x * lit 100_000_000)) (lit 100_000_000)
