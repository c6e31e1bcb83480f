-- ===== src/Backtest/Pairing.antt =====
-- What a comparison without failures says of the trades of a pair.
use cryptotrader.Prelude.{
  nat_eq, sym, ◌∙◌, subst, Bool-cases, ℕ, String, true, false, ◌≡◌, refl, ◌⊎◌, inl, inr, arith,
  List, [], ◌∷◌, All, Option, none, some, foldl, ◌≤◌,
}
use mathlib.Core.List.{Mem, mem-cons_of_mem, mem-cons_self}
use cryptotrader.Prelude.Dict.{Dict}
use cryptotrader.Models.{Trade}
use cryptotrader.Backtest.Data.{BtTrade}
use cryptotrader.Backtest.Validate.{
  new_matching, Matching, Constants, is_matched, is_hit, first_hit, take_hit, match_step,
  is_expected, extra_step, compare_pair,
}

take_hit-failures : (s : Matching) (o : Option ℕ) → s.failures ≤ (take_hit s o).failures
take_hit-failures s none = omega arith
take_hit-failures s (some i) = omega arith

module _ {W : Type 0} where
  -- Each trade has a simulated one of its own, of its side and in its time.
  abbrev pub Pairing : Dict ℕ (BtTrade W) → List ℕ → List (Trade W) → List ℕ → Type 0
  Pairing sim used [] matched = used ≡ matched
  Pairing sim used (t ∷ rest) matched =
      (i : ℕ) × (x : BtTrade W) × Mem (i, x) sim
      × (is_hit t x ≡ true)
      × (is_matched i used ≡ false)
      × Pairing sim (i ∷ used) rest matched

  -- What `first_hit` finds: a hit that is free.
  abbrev pub IsFound : List ℕ → Trade W → Dict ℕ (BtTrade W) → ℕ → Type 0
  IsFound used t sim i =
      (x : BtTrade W) × Mem (i, x) sim × (is_hit t x ≡ true) × (is_matched i used ≡ false)

  later-IsFound :
      (used : List ℕ) (t : Trade W) (p : ℕ × BtTrade W) (rest : Dict ℕ (BtTrade W)) (i : ℕ)
      → IsFound used t rest i
      → IsFound used t (p ∷ rest) i
  later-IsFound used t p rest i (y, m, hit, free) = (y, mem-cons_of_mem p m, hit, free)

  here-IsFound :
      (used : List ℕ) (t : Trade W) (j : ℕ) (x : BtTrade W) (rest : Dict ℕ (BtTrade W)) (i : ℕ)
      → is_hit t x ≡ true
      → is_matched j used ≡ false
      → j ≡ i
      → IsFound used t ((j, x) ∷ rest) i
  here-IsFound used t j x rest i hit free e =
      subst (IsFound used t ((j, x) ∷ rest)) e (x, mem-cons_self, hit, free)

  first_hit_lem :
      (used : List ℕ) (t : Trade W) (sim : Dict ℕ (BtTrade W)) (i : ℕ)
      → first_hit used t sim ≡ some i
      → IsFound used t sim i
  unfolding first_hit
  first_hit_lem used t [] i h = absurd (cc)
  first_hit_lem used t ((j, x) ∷ rest) i h = elim (Bool-cases (is_matched j used)) [
    | inl taken ↦ later-IsFound used t (j, x) rest i (first_hit_lem used t rest i (ground (arith)))
    | inr free ↦ elim (Bool-cases (is_hit t x)) [
      | inl hit ↦ here-IsFound used t j x rest i hit free (ground (arith))
      | inr missed ↦
          later-IsFound used t (j, x) rest i (first_hit_lem used t rest i (ground (arith)))
    ]
  ]

  match-failures :
      (sim : Dict ℕ (BtTrade W)) (actual : List (Trade W)) (s : Matching)
      → s.failures ≤ (foldl (match_step sim) s actual).failures
  unfolding match_step
  match-failures sim [] s = omega arith
  match-failures sim (t ∷ rest) s = omega (
    arith,
    take_hit-failures s (first_hit s.matched t sim),
    match-failures sim rest (match_step sim s t),
  )

  paired :
      (sim : Dict ℕ (BtTrade W)) (t : Trade W) (rest : List (Trade W)) (s : Matching) (o : Option ℕ)
      → ((r : Matching)
          → (foldl (match_step sim) r rest).failures ≡ r.failures
          → Pairing sim r.matched rest (foldl (match_step sim) r rest).matched)
      → first_hit s.matched t sim ≡ o
      → (foldl (match_step sim) (take_hit s o) rest).failures ≡ s.failures
      → Pairing sim s.matched (t ∷ rest) (foldl (match_step sim) (take_hit s o) rest).matched
  paired sim t rest s none after e h =
      absurd (omega (arith, match-failures sim rest (take_hit s none)))
  paired sim t rest s (some i) after e h =
      let (x, m, hit, free) = first_hit_lem s.matched t sim i e in
      (i, x, m, hit, free, after (take_hit s (some i)) h)

  match-Pairing :
      (sim : Dict ℕ (BtTrade W)) (actual : List (Trade W)) (s : Matching)
      → (foldl (match_step sim) s actual).failures ≡ s.failures
      → Pairing sim s.matched actual (foldl (match_step sim) s actual).matched
  unfolding match_step
  match-Pairing sim [] s h = refl
  match-Pairing sim (t ∷ rest) s h =
      paired sim t rest s (first_hit s.matched t sim) (match-Pairing sim rest) refl h

  module _ (k : Constants W) (pair : String) (matched : List ℕ) where
    abbrev pub IsAccounted : ℕ × BtTrade W → Type 0
    IsAccounted (i, x) = (is_matched i matched ≡ true) ⊎ (is_expected k pair x ≡ true)

    extra_step-le : (n : ℕ) (p : ℕ × BtTrade W) → n ≤ extra_step k pair matched n p
    unfolding extra_step
    extra_step-le n (i, x) = ground arith

    extra_step-same :
        (n : ℕ) (p : ℕ × BtTrade W) → extra_step k pair matched n p ≡ n → IsAccounted p
    unfolding extra_step
    extra_step-same n (i, x) h = elim (Bool-cases (is_matched i matched)) [
      | inl e ↦ inl e
      | inr e ↦ inr (ground arith)
    ]

    extras-le : (n : ℕ) (sim : Dict ℕ (BtTrade W)) → n ≤ foldl (extra_step k pair matched) n sim
    extras-le n [] = omega arith
    extras-le n (p ∷ sim) =
        omega (arith, extra_step-le n p, extras-le (extra_step k pair matched n p) sim)

    extras-none :
        (n : ℕ) (p : ℕ × BtTrade W) (sim : Dict ℕ (BtTrade W))
        → foldl (extra_step k pair matched) n (p ∷ sim) ≡ n
        → extra_step k pair matched n p ≡ n
    extras-none n p sim h =
        omega (arith, extra_step-le n p, extras-le (extra_step k pair matched n p) sim)

    extras-IsAccounted :
        (n : ℕ) (sim : Dict ℕ (BtTrade W))
        → foldl (extra_step k pair matched) n sim ≡ n
        → All IsAccounted sim
    extras-IsAccounted n [] h = tt
    extras-IsAccounted n (p ∷ sim) h = (
      extra_step-same n p (extras-none n p sim h),
      extras-IsAccounted (extra_step k pair matched n p) sim (h ∙ sym (extras-none n p sim h)),
    )

  -- The trades of a pair are reproduced, and the other simulated ones are accounted for.
  abbrev pub IsReproduced : Constants W → String → Dict ℕ (BtTrade W) → List (Trade W) → Type 0
  IsReproduced k pair sim actual =
      (matched : List ℕ) × Pairing sim [] actual matched
      × All (λ p. (is_matched p.0 matched ≡ true) ⊎ (is_expected k pair p.1 ≡ true)) sim

  pub compare_pair-le :
      (k : Constants W) (pair : String) (sim : Dict ℕ (BtTrade W)) (actual : List (Trade W)) (n : ℕ)
      → n ≤ compare_pair k pair sim actual n
  unfolding compare_pair
  compare_pair-le k pair sim actual n =
      let s = foldl (match_step sim) (new_matching n) actual in
      omega (
        arith,
        match-failures sim actual (new_matching n),
        extras-le k pair s.matched s.failures sim,
      )

  none_missed :
      (k : Constants W) (pair : String) (sim : Dict ℕ (BtTrade W)) (actual : List (Trade W))
      (s : Matching)
      → foldl
          (extra_step k pair (foldl (match_step sim) s actual).matched)
          (foldl (match_step sim) s actual).failures
          sim
        ≡ s.failures
      → (foldl (match_step sim) s actual).failures ≡ s.failures
  none_missed k pair sim actual s h = omega (
    arith,
    match-failures sim actual s,
    extras-le k pair (foldl (match_step sim) s actual).matched
        (foldl (match_step sim) s actual).failures sim,
  )

  pub compare_pair-IsReproduced :
      (k : Constants W) (pair : String) (sim : Dict ℕ (BtTrade W)) (actual : List (Trade W)) (n : ℕ)
      → compare_pair k pair sim actual n ≡ n
      → IsReproduced k pair sim actual
  unfolding compare_pair
  compare_pair-IsReproduced k pair sim actual n h =
      let s = foldl (match_step sim) (new_matching n) actual in
      let all_found = none_missed k pair sim actual (new_matching n) h in
      (
        s.matched,
        match-Pairing sim actual (new_matching n) all_found,
        extras-IsAccounted k pair s.matched s.failures sim (h ∙ sym all_found),
      )
