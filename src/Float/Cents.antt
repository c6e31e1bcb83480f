-- ===== src/Float/Cents.antt =====
-- The laws can be met: whole units as integers, with division to the next whole unit below in size.
use Prim.Native.Nat.{◌+◌, ◌*◌, ◌/◌}
use cryptotrader.Prelude.{ℕ, zero, suc, refl, List, [], ◌∷◌, arith, leb, nat_beq, if◌then◌else◌}
use cryptotrader.Prelude.Int.{ℤ, pos, pos_part, neg_part, sub_ℕ, ◌+ℤ◌, ◌-ℤ◌, ◌*ℤ◌, leb_ℤ, ltb_ℤ}
use cryptotrader.Float.{Float}
use cryptotrader.Float.Laws.{IsOrdered, IsExact}

-- The sign of `a`, with the size `n`.
abbrev pub signed : ℤ → ℕ → ℤ
signed a n = if leb (neg_part a) 0 then pos n else sub_ℕ 0 n

abbrev pub quot_ℤ : ℤ → ℤ → ℤ
quot_ℤ a b = signed (a *ℤ b) ((pos_part a + neg_part a) / (pos_part b + neg_part b))

abbrev pub sum_ℤ : List ℤ → ℤ
sum_ℤ [] = pos 0
sum_ℤ (x ∷ xs) = x +ℤ sum_ℤ xs

-- The whole part of a square root, by search from `n` down.
abbrev pub root_below : ℕ → ℕ → ℕ
root_below a zero = 0
root_below a (suc n) = let rest = root_below a n in if leb (suc n * suc n) a then suc n else rest

instance abbrev pub cents_float : Float ℤ
cents_float = record {
  add = ◌+ℤ◌;
  sub = ◌-ℤ◌;
  mul = ◌*ℤ◌;
  quot = quot_ℤ;
  neg = λ x. pos 0 -ℤ x;
  lt = ltb_ℤ;
  le = leb_ℤ;
  eq = λ x y. nat_beq (pos_part x + neg_part y) (pos_part y + neg_part x);
  lit = pos;
  sum = sum_ℤ;
  floor = λ x. x;
  sqrt = λ x. pos (root_below (pos_part x) 1000);
  square = λ x. x *ℤ x;
  round4 = λ x. x;
}

pub Cents-IsOrdered : IsOrdered ℤ
Cents-IsOrdered = ground arith

abbrev pub cents_exact : IsExact ℤ
cents_exact = record {
  units = λ x. x;
  units-injective = λ x y h. h;
  units-zero = refl;
  units-add = λ x y. refl;
  units-sub = λ x y. refl;
  units-neg = λ x. refl;
  units-sum_nil = refl;
  units-sum_cons = λ x xs. refl;
  le-units = λ x y. refl;
  lt-units = λ x y. refl;
}
