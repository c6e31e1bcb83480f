-- ===== src/Prelude/Lists.antt =====
-- Lists measured and cut by native numbers, under the library's names.
use Prim.Native.Nat.{ℕ, zero, suc, ◌+◌, ◌-◌, ◌≤◌}
use mathlib.Core.Path.{◌≡◌, refl, ap}
use mathlib.Core.Bool.{Bool}
use mathlib.Core.List.{List, [], ◌∷◌, ◌++◌, map}
use mathlib.Core.Option.{Option, none, some}
use native.Mathlib.Omega.{arith}
use cryptotrader.Prelude.Tests.{if◌then◌else◌}

module _ {ℓ} {A : Type ℓ} where
  abbrev pub length : List A → ℕ
  length [] = 0
  length (x ∷ xs) = suc (length xs)

  abbrev pub take : ℕ → List A → List A
  take zero xs = []
  take (suc n) [] = []
  take (suc n) (x ∷ xs) = x ∷ take n xs

  abbrev pub drop : ℕ → List A → List A
  drop zero xs = xs
  drop (suc n) [] = []
  drop (suc n) (x ∷ xs) = drop n xs

  -- `xs[-1]`, with `none` for the IndexError of an empty list.
  abbrev pub last? : List A → Option A
  last? [] = none
  last? (x ∷ []) = some x
  last? (x ∷ y ∷ xs) = last? (y ∷ xs)

  -- `xs[:-1]`
  abbrev pub drop_last : List A → List A
  drop_last [] = []
  drop_last (x ∷ []) = []
  drop_last (x ∷ y ∷ xs) = x ∷ drop_last (y ∷ xs)

  -- A comprehension's `if`.
  abbrev pub filter : (A → Bool) → List A → List A
  filter p [] = []
  filter p (x ∷ xs) = if p x then x ∷ filter p xs else filter p xs

  -- `xs[-n:]`, which is the whole list where `n` is 0 or exceeds its length.
  abbrev pub take_last : ℕ → List A → List A
  take_last zero xs = xs
  take_last (suc n) xs = drop (length xs - suc n) xs

  -- `enumerate(xs)`, from a number on.
  abbrev pub enumerate : ℕ → List A → List (ℕ × A)
  enumerate n [] = []
  enumerate n (x ∷ xs) = (n, x) ∷ enumerate (suc n) xs

  abbrev pub All {κ} : (A → Type κ) → List A → Type κ
  All P [] = Unit
  All P (x ∷ xs) = P x × All P xs

module _ {ℓ} {A : Type ℓ} where
  pub length-append : (xs ys : List A) → length (xs ++ ys) ≡ length xs + length ys
  length-append [] ys = omega arith
  length-append (x ∷ xs) ys = omega (arith, length-append xs ys)

  pub length-drop : (n : ℕ) (xs : List A) → length (drop n xs) ≡ length xs - n
  length-drop zero xs = omega arith
  length-drop (suc n) [] = omega arith
  length-drop (suc n) (x ∷ xs) = omega (arith, length-drop n xs)

  pub length-map {κ} : {B : Type κ} (f : A → B) (xs : List A) → length (map f xs) ≡ length xs
  length-map f [] = refl
  length-map f (x ∷ xs) = ap suc (length-map f xs)

  pub length-filter-le : (p : A → Bool) (xs : List A) → length (filter p xs) ≤ length xs
  length-filter-le p [] = omega arith
  length-filter-le p (x ∷ xs) = ground (arith, length-filter-le p xs)

  pub filter-append :
      (p : A → Bool) (xs ys : List A) → filter p (xs ++ ys) ≡ filter p xs ++ filter p ys
  filter-append p [] ys = refl
  filter-append p (x ∷ xs) ys = ground (arith, filter-append p xs ys)

  pub last?-append_one : (xs : List A) (x : A) → last? (xs ++ x ∷ []) ≡ some x
  last?-append_one [] x = refl
  last?-append_one (y ∷ []) x = refl
  last?-append_one (y ∷ z ∷ xs) x = last?-append_one (z ∷ xs) x

  pub All-append {κ} : (P : A → Type κ) (xs ys : List A) → All P xs → All P ys → All P (xs ++ ys)
  All-append P [] ys p q = q
  All-append P (x ∷ xs) ys (p, ps) q = (p, All-append P xs ys ps q)
