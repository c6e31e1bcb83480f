-- ===== src/Reconcile.antt =====
-- cryptotrader/reconcile.py, the part that compares the trade log with the exchange: the recorded
-- baseline and the drift that is left. The movements that fills and rewards explain are in
-- Movements, and what the trade log holds is in Holdings. A dict of the exchange is read already: a
-- number is the value of `float`, and a missing key is `none`.
pub mod Movements
pub mod Member
pub mod Listed
mod Tests
use Prim.Native.String.{compare}
use text.Mathlib.Text.{is_le}
use cryptotrader.Prelude.{
  String, Bool, true, false, not, ◌&&◌, ◌||◌, ◌==◌, string_eq, if◌then◌else◌, Option, none, some,
  List, [], ◌∷◌, ◌++◌, foldl, filter, map,
}
use cryptotrader.Prelude.Dict.{Dict, lookup, contains, get_or, insert, keys}
use cryptotrader.Float.{Float, ◌+◌, ◌-◌, neg, lit, lt, le, gt, abs}
use cryptotrader.Database.{Database}
use cryptotrader.Holdings.{add_to, ledger_holdings}

-- `sorted`, which keeps the order of equal items: an item goes before the first that is not less.
module _ {A : Type 0} (before : A → A → Bool) where
  unfoldable pub place_before : A → List A → List A
  place_before a [] = a ∷ []
  place_before a (b ∷ rest) = if before a b then a ∷ b ∷ rest else b ∷ place_before a rest

  unfoldable pub sorted : List A → List A
  sorted [] = []
  sorted (a ∷ rest) = place_before a (sorted rest)

abbrev pub text_before : String → String → Bool
text_before s t = is_le (compare s t)

-- `a in xs`, and `set(xs)`.
abbrev pub member : String → List String → Bool
member a [] = false
member a (b ∷ rest) = b == a || member a rest

unfoldable pub set_of : List String → List String
set_of [] = []
set_of (a ∷ rest) = if member a rest then set_of rest else a ∷ set_of rest

module _ (W : Type 0) where
  pub record AssetReconciliation : Type 0 where
    pub asset : String
    pub exchange : W
    pub ledger : W
    pub baseline : Option W
    pub adjustment : W

  pub record Movement : Type 0 where
    pub timestamp : W
    pub asset : String
    pub pair : String
    pub side : String
    pub amount : W
    pub by_bot : Bool
    pub ordertxid : String

  -- A record of TradesHistory.
  pub record Fill : Type 0 where
    pub time : Option W
    pub pair : Option String
    pub kind : Option String
    pub vol : Option W
    pub cost : Option W
    pub fee : Option W
    pub ordertxid : Option String

  -- A record of Ledgers.
  pub record LedgerEntry : Type 0 where
    pub time : Option W
    pub asset : Option String
    pub kind : Option String
    pub amount : Option W
    pub fee : Option W

-- `d.get(key, default)`
abbrev pub value_or : {A : Type 0} → A → Option A → A
value_or default none = default
value_or default (some a) = a

abbrev pub is_text : Option String → String → Bool
is_text none s = false
is_text (some t) s = t == s

module _ {W : Type 0} ⦃fl : Float W⦄ where
  unfoldable pub divergence : AssetReconciliation W → W
  divergence r = r.exchange - r.ledger

  abbrev pub plus_adjustment : W → Option W → Option W
  plus_adjustment x none = none
  plus_adjustment x (some b) = some (b + x)

  unfoldable pub expected : AssetReconciliation W → Option W
  expected r = plus_adjustment r.adjustment r.baseline

  abbrev pub minus_expected : W → Option W → Option W
  minus_expected x none = none
  minus_expected x (some e) = some (x - e)

  unfoldable pub drift : AssetReconciliation W → Option W
  unfolding divergence expected
  drift r = minus_expected (divergence r) (expected r)

  abbrev pub within : W → Option W → Bool
  within tolerance none = false
  within tolerance (some d) = le (abs d) tolerance

  -- By the tolerance, DEFAULT_TOLERANCE where the caller gives none.
  unfoldable pub is_ok : W → AssetReconciliation W → Bool
  unfolding drift
  is_ok tolerance r = within tolerance (drift r)

  abbrev pub row_for :
      Dict String W → Dict String W → Dict String W → Dict String W → String → AssetReconciliation W
  row_for ledger balances baseline adjustment asset = record {
    asset = asset;
    exchange = get_or asset (lit 0) balances;
    ledger = get_or asset (lit 0) ledger;
    baseline = lookup asset baseline;
    adjustment = get_or asset (lit 0) adjustment;
  }

  unfoldable pub assets_of : Dict String W → Dict String W → Dict String W → List String
  assets_of ledger balances baseline = sorted text_before (
      set_of
        (keys ledger ++ filter (λ a. contains a ledger || contains a baseline) (keys balances)))

  unfoldable pub reconcile :
      Database W
      → Dict String W
      → Dict String W
      → String
      → Dict String W
      → List (AssetReconciliation W)
  unfolding assets_of
  reconcile db balances baseline mode adjustment =
      let ledger = ledger_holdings db mode in
      map (row_for ledger balances baseline adjustment) (assets_of ledger balances baseline)
