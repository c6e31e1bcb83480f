-- ===== src/Prelude/Dict.antt =====
-- A Python dict in insertion order, as an association list.
use mathlib.Core.Path.{◌≡◌, refl}
use mathlib.Core.Logic.{◌≢◌}
use mathlib.Core.Bool.{Bool}
use mathlib.Core.List.{List, [], ◌∷◌, map}
use mathlib.Core.Option.{Option, none, some}
use native.Mathlib.Omega.{arith}
use cryptotrader.Prelude.Tests.{Eq, ◌==◌, if◌then◌else◌, is_some}

abbrev pub Dict : Type 0 → Type 0 → Type 0
Dict K V = List (K × V)

module _ {K V : Type 0} ⦃e : Eq K⦄ where
  -- `d.get(k)`
  abbrev pub lookup : K → Dict K V → Option V
  lookup k [] = none
  lookup k ((j, v) ∷ d) = if j == k then some v else lookup k d

  -- `k in d`
  abbrev pub contains : K → Dict K V → Bool
  contains k d = is_some (lookup k d)

  -- `d.get(k, v)`
  abbrev pub get_or : K → V → Dict K V → V
  get_or k v d = elim (lookup k d) [ none ↦ v | some w ↦ w ]

  -- `d[k] = v`: a known key keeps its place.
  abbrev pub insert : K → V → Dict K V → Dict K V
  insert k v [] = (k, v) ∷ []
  insert k v ((j, w) ∷ d) = if j == k then (j, v) ∷ d else (j, w) ∷ insert k v d

  -- `del d[k]`, `d.pop(k, None)`
  abbrev pub erase : K → Dict K V → Dict K V
  erase k [] = []
  erase k ((j, w) ∷ d) = if j == k then d else (j, w) ∷ erase k d

  -- No key is listed twice.
  abbrev pub IsDict : Dict K V → Type 0
  IsDict [] = Unit
  IsDict ((j, w) ∷ d) = (lookup j d ≡ none) × IsDict d

abbrev pub keys : {K V : Type 0} → Dict K V → List K
keys = map λ p. p.0

module _ {K V : Type 0} ⦃e : Eq K⦄ where
  pub lookup-insert :
      (k j : K) (v : V) (d : Dict K V)
      → lookup j (insert k v d) ≡ (if k == j then some v else lookup j d)
  lookup-insert k j v [] = refl
  lookup-insert k j v ((i, w) ∷ d) =
      ground (arith, e.beq_iff k j, e.beq_iff i k, e.beq_iff i j, lookup-insert k j v d)

  pub lookup-insert_self : (k : K) (v : V) (d : Dict K V) → lookup k (insert k v d) ≡ some v
  lookup-insert_self k v d = ground (arith, lookup-insert k k v d, e.beq_iff k k)

  pub lookup-erase_ne : (j k : K) (d : Dict K V) → k ≢ j → lookup j (erase k d) ≡ lookup j d
  lookup-erase_ne j k [] h = refl
  lookup-erase_ne j k ((i, w) ∷ d) h =
      ground (arith, e.beq_iff i k, e.beq_iff i j, lookup-erase_ne j k d h)

  pub lookup-erase_self : (k : K) (d : Dict K V) → IsDict d → lookup k (erase k d) ≡ none
  lookup-erase_self k [] h = refl
  lookup-erase_self k ((i, w) ∷ d) h = ground (arith, e.beq_iff i k, lookup-erase_self k d h.1)

  pub insert-IsDict : (k : K) (v : V) (d : Dict K V) → IsDict d → IsDict (insert k v d)
  insert-IsDict k v [] h = (refl, tt)
  insert-IsDict k v ((i, w) ∷ d) h =
      ground (arith, e.beq_iff i k, e.beq_iff k i, insert-IsDict k v d h.1, lookup-insert k i v d)

  pub lookup-erase-none : (j k : K) (d : Dict K V) → lookup j d ≡ none → lookup j (erase k d) ≡ none
  lookup-erase-none j k [] h = refl
  lookup-erase-none j k ((i, w) ∷ d) h = ground (arith, lookup-erase-none j k d)

  pub lookup-erase :
      (j k : K) (d : Dict K V)
      → IsDict d
      → lookup j (erase k d) ≡ (if k == j then none else lookup j d)
  lookup-erase j k [] h = ground (arith, e.beq_iff k j)
  lookup-erase j k ((i, w) ∷ d) h =
      ground (arith, e.beq_iff i k, e.beq_iff i j, e.beq_iff k j, lookup-erase j k d h.1)

  pub erase-IsDict : (k : K) (d : Dict K V) → IsDict d → IsDict (erase k d)
  erase-IsDict k [] h = tt
  erase-IsDict k ((i, w) ∷ d) h = ground (arith, erase-IsDict k d h.1, lookup-erase-none i k d h.0)

  pub get_or-insert :
      (k j : K) (v w : V) (d : Dict K V)
      → get_or j w (insert k v d) ≡ (if k == j then v else get_or j w d)
  get_or-insert k j v w d = ground (arith, lookup-insert k j v d)
