-- ===== src/WriteBaseline/Settled.antt =====
-- A baseline that was just written against the two checks that read it.
use cryptotrader.Prelude.{
  String, ◌≡◌, refl, sym, ap, ◌∙◌, true, false, Bool, ◌||◌, ◌&&◌, ◌==◌, string_eq, if◌then◌else◌,
  Option, none, some, is_some, List, [], ◌∷◌, foldl, map, All, arith,
}
use cryptotrader.Prelude.Dict.{Dict, lookup, get_or, contains, insert, lookup-insert}
use cryptotrader.Float.{Float, ◌+◌, ◌-◌, lit, le, abs}
use cryptotrader.Reconcile.{
  divergence, drift, expected, is_ok, within, minus_expected, plus_adjustment, row_for, assets_of,
  member,
}
use cryptotrader.Reconcile.Listed.{member-assets_of}
use cryptotrader.WriteBaseline.{divergences, rounded}

pub All-of_member :
    {R : Type 0} (P : R → Type 0) (row : String → R) (xs : List String)
    → ((a : String) → member a xs ≡ true → P (row a))
    → All P (map row xs)
All-of_member P row [] h = tt
All-of_member P row (x ∷ xs) h = (
  h x (ground (arith, string_eq.beq_iff x x)),
  All-of_member P row xs (λ a m. h a (ground arith)),
)

last_wins :
    {A : Type 0} (found same : Bool) (v w old : Option A)
    → (same ≡ true → w ≡ v)
    → (if found then v else if same then w else old) ≡ (if same || found then v else old)
last_wins found same v w old h = ground (arith, h)

kept_alone : (p q : Bool) → (p || (q && false)) ≡ p
kept_alone p q = ground arith

is_some-if : {A : Type 0} (b : Bool) (a : A) → is_some (if b then some a else none) ≡ b
is_some-if true a = refl
is_some-if false a = refl

or_both : (p q : Bool) → (p || (q && p)) ≡ true → p ≡ true
or_both p q h = ground arith

module _ {W : Type 0} ⦃fl : Float W⦄ (round12 : W → W) where
  -- The figure of an asset that `divergences` lists.
  lookup-divergences :
      (ledger balances baseline adjustment : Dict String W) (xs : List String) (d : Dict String W)
      (a : String)
      → let row = row_for ledger balances baseline adjustment in
        lookup a (foldl (λ d r. insert r.asset (round12 (divergence r)) d) d (map row xs))
        ≡ (if member a xs then some (round12 (divergence (row a))) else lookup a d)
  lookup-divergences ledger balances baseline adjustment [] d a = refl
  lookup-divergences ledger balances baseline adjustment (x ∷ xs) d a =
      let value =
        λ (y : String). round12 (divergence (row_for ledger balances baseline adjustment y)) in
      lookup-divergences ledger balances baseline adjustment xs (insert x (value x) d) a
      ∙ rw (lookup-insert x a (value x) d) (
          last_wins (member a xs) (x == a) (some (value a)) (some (value x)) (lookup a d)
            (λ e. ap (λ y. some (value y)) ((string_eq.beq_iff x a).0 e)))

  -- The figures of a row do not depend on the baseline and the adjustment.
  divergence-row_for :
      (ledger balances b b' j j' : Dict String W) (a : String)
      → divergence (row_for ledger balances b j a) ≡ divergence (row_for ledger balances b' j' a)
  unfolding divergence
  divergence-row_for ledger balances b b' j j' a = refl

  pub get_or-rounded :
      (p : String) (d : Dict String W)
      → round12 (lit 0) ≡ lit 0
      → get_or p (lit 0) (rounded round12 d) ≡ round12 (get_or p (lit 0) d)
  unfolding rounded
  get_or-rounded p [] h = sym h
  get_or-rounded p ((k, v) ∷ d) h = ground (arith, get_or-rounded p d h)

  module _ (ledger balances adjustment : Dict String W) (tolerance : W) where
    abbrev pub saved : Dict String W
    saved = divergences round12 (map (row_for ledger balances [] []) (assets_of ledger balances []))

    pub lookup-saved :
        (a : String)
        → lookup a saved ≡ (
            if contains a ledger
            then some (round12 (divergence (row_for ledger balances [] [] a)))
            else none)
    unfolding divergences
    lookup-saved a =
        lookup-divergences ledger balances [] [] (assets_of ledger balances []) [] a
        ∙ ap
            (λ b. if b then some (round12 (divergence (row_for ledger balances [] [] a))) else none)
            (member-assets_of ledger balances [] a ∙ kept_alone (contains a ledger) _)

    pub row-is_ok :
        (a : String)
        → ((x : W) → le (abs (x - (round12 x + lit 0))) tolerance ≡ true)
        → get_or a (lit 0) adjustment ≡ lit 0
        → contains a ledger ≡ true
        → is_ok tolerance (row_for ledger balances saved adjustment a) ≡ true
    unfolding is_ok drift expected divergence
    row-is_ok a near settled has =
        let x = get_or a (lit 0) balances - get_or a (lit 0) ledger in
        ap
          (λ o.
            within tolerance (minus_expected x (plus_adjustment (get_or a (lit 0) adjustment) o)))
          (lookup-saved a ∙ ap (λ b. if b then some (round12 x) else none) has)
        ∙ ap (λ z. within tolerance (minus_expected x (some (round12 x + z)))) settled
        ∙ near x

    pub listed-contains :
        (a : String) → member a (assets_of ledger balances saved) ≡ true → contains a ledger ≡ true
    listed-contains a m = or_both (contains a ledger) (contains a balances) (
        ap (λ b. contains a ledger || (contains a balances && b))
          (sym (ap is_some (lookup-saved a) ∙ is_some-if (contains a ledger) _))
        ∙ sym (member-assets_of ledger balances saved a)
        ∙ m)
