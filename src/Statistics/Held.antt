-- ===== src/Statistics/Held.antt =====
-- The position that the trade log shows, where sums of quantities do not round.
use cryptotrader.Prelude.{
  ◌≡◌, refl, ap, sym, ◌∙◌, ◌⊎◌, inl, inr, List, [], ◌∷◌, ◌++◌, foldl, arith, All, Bool-cases, true,
  false,
}
use cryptotrader.Prelude.Int.{ℤ, pos, ◌+ℤ◌, ◌-ℤ◌, ◌≤ℤ◌, int_laws, ltb_ℤ}
use mathlib.Core.List.{foldl-append}
use cryptotrader.Float.{Float, lit, lt, max, ◌-◌}
use cryptotrader.Float.Laws.{IsExact}
use cryptotrader.Models.{Trade, Side, side_cases}
use cryptotrader.Statistics.{held_step, held_after}

module _ {W : Type 0} ⦃fl : Float W⦄ (x : IsExact W) where
  open x use {units}

  -- What a trade adds to the account.
  abbrev pub signed_quantity : Trade W → ℤ
  signed_quantity t = elim t.side [
    | Side.buy ↦ units t.quantity
    | Side.sell ↦ pos 0 -ℤ units t.quantity
  ]

  abbrev pub net : List (Trade W) → ℤ
  net [] = pos 0
  net (t ∷ ts) = signed_quantity t +ℤ net ts

  net-append : (ts us : List (Trade W)) → net (ts ++ us) ≡ net ts +ℤ net us
  net-append [] us = omega int_laws
  net-append (t ∷ ts) us = rw (net-append ts us) (omega int_laws)

  abbrev pub NonNegative : List (Trade W) → Type 0
  NonNegative = All λ t. pos 0 ≤ℤ units t.quantity

  -- `max(0.0, q - d)`
  floored :
      (q d : W)
      → (pos 0 ≤ℤ units (max (lit 0) (q - d)))
        × (units q -ℤ units d ≤ℤ units (max (lit 0) (q - d)))
        × ((units (max (lit 0) (q - d)) ≡ units q -ℤ units d)
            ⊎ (units (max (lit 0) (q - d)) ≡ pos 0))
  floored q d =
      let test = x.lt-units (lit 0) (q - d) in
      elim (Bool-cases (lt (lit 0) (q - d))) [
        | inl above ↦
            let order : ltb_ℤ (pos 0) (units q -ℤ units d) ≡ true =
              rw (x.units-zero, x.units-sub q d) at (sym test ∙ above) in
            rw (above, x.units-sub q d) (ground arith, ground arith, inl refl)
        | inr below ↦
            let order : ltb_ℤ (pos 0) (units q -ℤ units d) ≡ false =
              rw (x.units-zero, x.units-sub q d) at (sym test ∙ below) in
            rw (below, x.units-zero) (omega arith, ground arith, inr refl)
      ]

  -- A step adds the trade, or floors at zero where that is more.
  held_step_lem :
      (q : W) (t : Trade W)
      → pos 0 ≤ℤ units q
      → pos 0 ≤ℤ units t.quantity
      → (pos 0 ≤ℤ units (held_step q t))
        × (units q +ℤ signed_quantity t ≤ℤ units (held_step q t))
        × ((units (held_step q t) ≡ units q +ℤ signed_quantity t) ⊎ (units (held_step q t) ≡ pos 0))
  unfolding held_step
  held_step_lem q t hq ht = elim (side_cases t.side) [
    | inl bought ↦
        rw (bought, held_step, x.units-add q t.quantity) (omega int_laws, omega int_laws, inl refl)
    | inr sold ↦
        let (low, ge, split) = floored q t.quantity in
        rw (sold, held_step)
          (low, omega int_laws, elim split [ inl e ↦ inl (rw e (omega int_laws)) | inr e ↦ inr e ])
  ]

  foldl-held-ge :
      (ts : List (Trade W)) (q : W)
      → pos 0 ≤ℤ units q
      → NonNegative ts
      → (pos 0 ≤ℤ units (foldl held_step q ts))
        × (units q +ℤ net ts ≤ℤ units (foldl held_step q ts))
  foldl-held-ge [] q hq v = (hq, omega int_laws)
  foldl-held-ge (t ∷ ts) q hq (ht, v) =
      let (low, step, _) = held_step_lem q t hq ht in
      let (a, b) = foldl-held-ge ts (held_step q t) low v in (a, omega int_laws)

  foldl-held-eq :
      (ts : List (Trade W)) (q : W)
      → pos 0 ≤ℤ units q
      → NonNegative ts
      → (units (foldl held_step q ts) ≡ units q +ℤ net ts)
        ⊎ ((us : List (Trade W)) × (vs : List (Trade W)) × (ts ≡ us ++ vs)
            × (units (foldl held_step q ts) ≡ net vs))
  foldl-held-eq [] q hq v = inl (omega int_laws)
  foldl-held-eq (t ∷ ts) q hq (ht, v) =
      let (low, _, step) = held_step_lem q t hq ht in
      later (foldl-held-eq ts (held_step q t) low v) step
    where
      later :
          (units (foldl held_step (held_step q t) ts) ≡ units (held_step q t) +ℤ net ts)
            ⊎ ((us : List (Trade W)) × (vs : List (Trade W)) × (ts ≡ us ++ vs)
                × (units (foldl held_step (held_step q t) ts) ≡ net vs))
          → (units (held_step q t) ≡ units q +ℤ signed_quantity t) ⊎ (units (held_step q t) ≡ pos 0)
          → (units (foldl held_step (held_step q t) ts) ≡ units q +ℤ net (t ∷ ts))
            ⊎ ((us : List (Trade W)) × (vs : List (Trade W)) × (t ∷ ts ≡ us ++ vs)
                × (units (foldl held_step (held_step q t) ts) ≡ net vs))
      later (inr (us, vs, e, f)) s = inr (t ∷ us, vs, ap (◌∷◌ t) e, f)
      later (inl f) (inl s) = inl (rw (f, s) (omega int_laws))
      later (inl f) (inr s) = inr (t ∷ [], ts, refl, rw (f, s) (omega int_laws))

  NonNegative-append :
      (us vs : List (Trade W)) → NonNegative (us ++ vs) → NonNegative us × NonNegative vs
  NonNegative-append [] vs h = (tt, h)
  NonNegative-append (u ∷ us) vs (a, h) = let (l, r) = NonNegative-append us vs h in ((a, l), r)

  held-ge-part :
      (us vs : List (Trade W))
      → NonNegative (us ++ vs)
      → net vs ≤ℤ units (foldl held_step (lit 0) (us ++ vs))
  held-ge-part us vs h =
      let (hu, hv) = NonNegative-append us vs h in
      let zero : pos 0 ≤ℤ units (lit 0) = rw x.units-zero (omega arith) in
      let (low, _) = foldl-held-ge us (lit 0) zero hu in
      let (_, more) = foldl-held-ge vs (foldl held_step (lit 0) us) low hv in
      rw (foldl-append held_step (lit 0) us vs) (omega int_laws)

  -- Where quantities are not negative and their sums exact, the position is the greatest net
  -- quantity that any newest part of the log amounts to: no part of the log nets more, and some
  -- part nets exactly that. So an over-sell is forgotten, and a later buy counts in full.
  pub held_after_greatest :
      (us vs : List (Trade W))
      → NonNegative (us ++ vs)
      → let held = units (held_after (us ++ vs)) in
        (net vs ≤ℤ held)
        × ((old : List (Trade W)) × (new : List (Trade W)) × (us ++ vs ≡ old ++ new)
            × (held ≡ net new))
  unfolding held_after
  held_after_greatest us vs v =
      let zero : pos 0 ≤ℤ units (lit 0) = rw x.units-zero (omega arith) in
      (held-ge-part us vs v, whole (us ++ vs) (foldl-held-eq (us ++ vs) (lit 0) zero v))
    where
      whole :
          (ts : List (Trade W))
          → (units (foldl held_step (lit 0) ts) ≡ units (lit 0) +ℤ net ts)
            ⊎ ((us : List (Trade W)) × (vs : List (Trade W)) × (ts ≡ us ++ vs)
                × (units (foldl held_step (lit 0) ts) ≡ net vs))
          → (us : List (Trade W)) × (vs : List (Trade W)) × (ts ≡ us ++ vs)
            × (units (foldl held_step (lit 0) ts) ≡ net vs)
      whole ts (inl e) = ([], ts, refl, rw (e, x.units-zero) (omega int_laws))
      whole ts (inr part) = part
