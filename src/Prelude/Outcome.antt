-- ===== src/Prelude/Outcome.antt =====
-- A Python call that returns or raises. An error keeps what the handlers of the program tell
-- apart; the message of an exception is not modelled.
use mathlib.Core.Path.{◌≡◌, refl}
use mathlib.Core.Option.{Option, none, some}

pub data Error : Type 0 where
  zero_division index_error key_error value_error type_error : Error
  -- `RuntimeError`, and whatever the exchange client or the database raises.
  runtime_error io_error overflow_error : Error

pub data Result {ℓ} (A : Type ℓ) : Type ℓ where
  ok : A → Result A
  raise : Error → Result A

abbrev pub or_raise {ℓ} : {A : Type ℓ} → Error → Option A → Result A
or_raise e (some a) = ok a
or_raise e none = raise e

-- The next step of a call, which an exception skips.
infixl 5 ◌>>=◌
abbrev pub ◌>>=◌ {ℓ κ} : {A : Type ℓ} {B : Type κ} (m : Result A) (next : A → Result B) → Result B
raise e >>= next = raise e
ok a >>= next = next a

-- A chain that returned: its first step returned, and so did the rest.
pub >>=-eq-ok {ℓ κ} :
    {A : Type ℓ} {B : Type κ} {b : B} (m : Result A) (next : A → Result B) (h : (m >>= next) ≡ ok b)
    → (a : A) × (m ≡ ok a) × (next a ≡ ok b)
>>=-eq-ok (raise e) next h = cc
>>=-eq-ok (ok a) next h = (a, refl, h)

infixl 5 ◌>>◌
abbrev pub ◌>>◌ {ℓ} : {B : Type ℓ} (m : Result (Unit {0})) (next : Result B) → Result B
m >> next = m >>= λ _. next
