-- ===== src/Maker/Account.antt =====
-- cryptotrader/maker.py: no entry is lost and none is resolved twice.
use Prim.Native.Nat.{◌+◌}
use cryptotrader.Prelude.{
  length-append, Bool-cases, inl, inr, ℕ, suc, length, String, Bool, true, false, ◌≡◌, refl, ap,
  ◌∙◌, sym, subst, arith, if◌then◌else◌, if-elim, is_some, ◌==◌, ◌&&◌, not, string_eq, pair_eq,
  Option, none, some, List, [], ◌∷◌, All, Eq,
}
use cryptotrader.Prelude.Dict.{Dict, lookup, erase}
use cryptotrader.Models.{Trade}
use cryptotrader.Desk.{Desk, RestingEntry}
use cryptotrader.Maker.{log_call, at_key, each_key}
use cryptotrader.Maker.Loop.{Body, Book, Resolves}

abbrev value_or : {V : Type 0} → Option V → V → V
value_or none w = w
value_or (some v) w = v

-- How many values of a dict pass a test.
abbrev pub count_of : {K V : Type 0} → (V → Bool) → Dict K V → ℕ
count_of p [] = 0
count_of p ((k, v) ∷ d) = (if p v then 1 else 0) + count_of p d

module _ {K V : Type 0} ⦃q : Eq K⦄ where
  count_of-erase :
      (p : V → Bool) (k : K) (d : Dict K V) (v : V)
      → lookup k d ≡ some v
      → (if p v then 1 else 0) + count_of p (erase k d) ≡ count_of p d
  count_of-erase p k [] v h = cc
  count_of-erase p k ((j, w) ∷ d) v h = elim (Bool-cases (j == k)) [
    | inl same ↦
        let found : some w ≡ some v = sym (ap (λ b. if b then some w else lookup k d) same) ∙ h in
        rw same
          (ap (λ u. (if p u then 1 else 0) + count_of p d) (sym (ap (λ o. value_or o w) found)))
    | inr other ↦
        let later =
          count_of-erase p k d v (sym (ap (λ b. if b then some w else lookup k d) other) ∙ h) in
        rw other (omega (arith, later))
  ]

  All-lookup :
      (P : V → Type 0) (k : K) (d : Dict K V) (v : V)
      → All (λ p. P p.1) d
      → lookup k d ≡ some v
      → P v
  All-lookup P k [] v h e = cc
  All-lookup P k ((j, w) ∷ d) v (h, hs) e = elim (Bool-cases (j == k)) [
    | inl same ↦
        let found : some w ≡ some v = sym (ap (λ b. if b then some w else lookup k d) same) ∙ e in
        subst P (ap (λ o. value_or o w) found) h
    | inr other ↦ All-lookup P k d v hs (sym (ap (λ b. if b then some w else lookup k d) other) ∙ e)
  ]

  All-erase :
      (P : V → Type 0) (k : K) (d : Dict K V) → All (λ p. P p.1) d → All (λ p. P p.1) (erase k d)
  All-erase P k [] h = tt
  All-erase P k ((j, w) ∷ d) (h, hs) =
      if-elim (All (λ p. P p.1)) (j == k) d ((j, w) ∷ erase k d) (λ _. hs)
        (λ _. (h, All-erase P k d hs))

one_more : (b : Bool) (n : ℕ) → (if b then suc n else n) ≡ (if b then 1 else 0) + n
one_more true n = omega arith
one_more false n = omega arith

module _ {C : Type 0} where
  pub length-log_call :
      (o : Option C) (cs : List C) → is_some o ≡ true → length (log_call o cs) ≡ suc (length cs)
  length-log_call none cs h = cc
  length-log_call (some c) cs h = ground (arith, length-append cs (c ∷ []))

module _ {W C : Type 0} where
  -- Every entry has its rollback.
  abbrev pub Backed : Book W C → Type 0
  Backed = All (λ p. is_some p.1.on_reject ≡ true)

  -- The body gives one trade for an entry that it resolves as a hit, and calls one rollback for an
  -- entry that it resolves as a miss, and neither does both.
  abbrev pub Accounts : (RestingEntry W C → Bool) → (RestingEntry W C → Bool) → Body W C → Type 0
  Accounts res hit body =
      (k : String × String) (e : RestingEntry W C) (d : Desk W C)
      → is_some e.on_reject ≡ true
      → (length (body k e d).0 ≡ (if res e && hit e then 1 else 0))
        × (length (body k e d).1.called
            ≡ (if res e && not (hit e) then suc (length d.called) else length d.called))

  -- The hits that left the book are the trades, and the misses that left it are the rollbacks called.
  abbrev pub Settled : (RestingEntry W C → Bool) → Desk W C → List (Trade W) × Desk W C → Type 0
  Settled hit d (filled, after) =
      (length filled + count_of hit after.resting ≡ count_of hit d.resting)
      × (length after.called + count_of (λ e. not (hit e)) after.resting
          ≡ length d.called + count_of (λ e. not (hit e)) d.resting)

  Backed-if :
      (b : Bool) (k : String × String) (book : Book W C)
      → Backed book
      → Backed (if b then erase k book else book)
  Backed-if true k book v = All-erase (λ e. is_some e.on_reject ≡ true) k book v
  Backed-if false k book v = v

  count_of-if :
      (p : RestingEntry W C → Bool) (b : Bool) (k : String × String) (e : RestingEntry W C)
      (book : Book W C)
      → lookup k book ≡ some e
      → (if b && p e then 1 else 0) + count_of p (if b then erase k book else book)
        ≡ count_of p book
  count_of-if p true k e book h = count_of-erase p k book e h
  count_of-if p false k e book h = omega arith

  module _ (res hit : RestingEntry W C → Bool) (body : Body W C) (h : Resolves res body)
      (acc : Accounts res hit body) where
    at_key-Backed :
        (k : String × String) (d : Desk W C) (found : Option (RestingEntry W C))
        → Backed d.resting
        → Backed (at_key body k d found).1.resting
    at_key-Backed k d none v = v
    at_key-Backed k d (some e) v = subst Backed (sym (h k e d)) (Backed-if (res e) k d.resting v)

    at_key-Settled :
        (k : String × String) (d : Desk W C) (found : Option (RestingEntry W C))
        → lookup k d.resting ≡ found
        → Backed d.resting
        → Settled hit d (at_key body k d found)
    at_key-Settled k d none e v = (omega arith, omega arith)
    at_key-Settled k d (some x) e v =
        let backed = All-lookup (λ e. is_some e.on_reject ≡ true) k d.resting x v e in
        let miss : RestingEntry W C → Bool = λ e. not (hit e) in
        let (fills, calls) = acc k x d backed in
        let hits = count_of-if hit (res x) k x d.resting e in
        let misses = count_of-if miss (res x) k x d.resting e in
        (
          omega (arith, fills, hits, ap (count_of hit) (h k x d)),
          omega (
            arith,
            calls,
            misses,
            ap (count_of miss) (h k x d),
            one_more (res x && not (hit x)) (length d.called),
          ),
        )

    pub each_key-Settled :
        (ks : List (String × String)) (d : Desk W C)
        → Backed d.resting
        → Settled hit d (each_key body ks d) × Backed (each_key body ks d).1.resting
    unfolding each_key
    each_key-Settled [] d v = ((omega arith, omega arith), v)
    each_key-Settled (k ∷ ks) d v =
        let now = at_key-Settled k d (lookup k d.resting) refl v in
        let (later, kept) = each_key-Settled ks _ (at_key-Backed k d (lookup k d.resting) v) in
        let split =
          length-append (at_key body k d (lookup k d.resting)).0
            (each_key body ks (at_key body k d (lookup k d.resting)).1).0 in
        ((omega (arith, split, now.0, later.0), omega (arith, now.1, later.1)), kept)
