-- ===== src/Prelude/Tests.antt =====
-- Boolean tests on the native numbers, the conditional, and equality of keys as an interface.
use Prim.Native.Nat.{ℕ, compare, Ordering}
use Prim.Native.String.{String}
use mathlib.Core.Path.{◌≡◌, refl}
use mathlib.Core.Logic.{◌↔◌, ◌⊎◌, inl, inr}
use mathlib.Core.Bool.{Bool, true, false, ◌&&◌}
use mathlib.Core.Option.{Option, none, some}
use native.Mathlib.Omega.{arith}
use text.Mathlib.Text.{◌==◌ as str_eq}
use text.Mathlib.TextEquality.{eq_iff}

abbrev pub ltb : ℕ → ℕ → Bool
ltb a b = elim (compare a b) [ Ordering.lt ↦ true | _ ↦ false ]

abbrev pub leb : ℕ → ℕ → Bool
leb a b = elim (compare a b) [ Ordering.gt ↦ false | _ ↦ true ]

abbrev pub nat_beq : ℕ → ℕ → Bool
nat_beq a b = elim (compare a b) [ Ordering.eq ↦ true | _ ↦ false ]

infix 1 if◌then◌else◌
abbrev pub if◌then◌else◌ {ℓ} : {A : Type ℓ} → Bool → A → A → A
if true then x else y = x
if false then x else y = y

pub nat_beq_iff : (a b : ℕ) → (nat_beq a b ≡ true) ↔ (a ≡ b)
nat_beq_iff a b = ground arith

-- Python's `==` on the types whose values the program compares for identity of keys.
pub record Eq (A : Type 0) : Type 0 where
  pub beq : A → A → Bool
  pub beq_iff : (a b : A) → (beq a b ≡ true) ↔ (a ≡ b)

infix 50 ◌==◌
abbrev pub ◌==◌ : {A : Type 0} ⦃e : Eq A⦄ → A → A → Bool
◌==◌ ⦃e⦄ = e.beq

instance abbrev pub nat_eq : Eq ℕ
nat_eq = record { beq = nat_beq; beq_iff = nat_beq_iff }

instance abbrev pub string_eq : Eq String
string_eq = record { beq = str_eq; beq_iff = eq_iff }

module _ {A B : Type 0} ⦃e : Eq A⦄ ⦃f : Eq B⦄ where
  abbrev pub pair_beq : A × B → A × B → Bool
  pair_beq (a, b) (c, d) = e.beq a c && f.beq b d

  pub pair_beq_iff : (p q : A × B) → (pair_beq p q ≡ true) ↔ (p ≡ q)
  pair_beq_iff (a, b) (c, d) = ground (arith, e.beq_iff a c, f.beq_iff b d)

  instance abbrev pub pair_eq : Eq (A × B)
  pair_eq = record { beq = pair_beq; beq_iff = pair_beq_iff }

-- To split on a computed value and keep the equation.
pub Bool-cases : (b : Bool) → (b ≡ true) ⊎ (b ≡ false)
Bool-cases true = inl refl
Bool-cases false = inr refl

pub Option-cases {ℓ} : {A : Type ℓ} (o : Option A) → (o ≡ none) ⊎ ((a : A) × (o ≡ some a))
Option-cases none = inl refl
Option-cases (some a) = inr (a, refl)

abbrev pub is_some {ℓ} : {A : Type ℓ} → Option A → Bool
is_some none = false
is_some (some _) = true

-- A property of both branches, each under its condition.
pub if-elim {ℓ κ} :
    {A : Type ℓ} (P : A → Type κ) (b : Bool) (x y : A)
    → (b ≡ true → P x)
    → (b ≡ false → P y)
    → P (if b then x else y)
if-elim P true x y h k = h refl
if-elim P false x y h k = k refl
