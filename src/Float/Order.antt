-- ===== src/Float/Order.antt =====
-- `max` and `min` under the laws of the order.
use cryptotrader.Prelude.{arith}
use cryptotrader.Float.{Float, max, min}
use cryptotrader.Float.Laws.{IsOrdered, ◌≼◌}

module _ {W : Type 0} ⦃fl : Float W⦄ (o : IsOrdered W) where
  pub max-le : (x y : W) → (x ≼ max x y) × (y ≼ max x y)
  max-le x y = ground (arith, o.le_refl x, o.le_refl y, o.le_total x y, o.lt-not_le x y)

  pub min-le : (x y : W) → (min x y ≼ x) × (min x y ≼ y)
  min-le x y = ground (arith, o.le_refl x, o.le_refl y, o.le_total x y, o.lt-not_le y x)
