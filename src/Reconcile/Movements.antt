-- ===== src/Reconcile/Movements.antt =====
-- cryptotrader/reconcile.py: the movements that the records of the exchange explain.
use cryptotrader.Prelude.{
  String, Bool, not, ◌&&◌, string_eq, if◌then◌else◌, Option, none, some, List, [], ◌∷◌, ◌++◌, foldl,
  map,
}
use cryptotrader.Prelude.Dict.{Dict, lookup, contains, get_or, insert}
use cryptotrader.Float.{Float, ◌+◌, ◌-◌, neg, lit, lt, gt}
use cryptotrader.Holdings.{add_to}
use cryptotrader.Reconcile.{Movement, Fill, LedgerEntry, value_or, is_text, member, sorted}

module _ {W : Type 0} ⦃fl : Float W⦄ where
  -- `dict.fromkeys(watch, 0.0)`
  unfoldable pub zeros : List String → Dict String W
  zeros watch = foldl (λ d a. insert a (lit 0) d) [] watch

  abbrev pub add_manual : W → Dict String W → Movement W → Dict String W
  add_manual since out m =
      if not m.by_bot && gt m.timestamp since && contains m.asset out
      then add_to m.asset m.amount out
      else out

  unfoldable pub manual_adjustment : List (Movement W) → W → List String → Dict String W
  unfolding zeros
  manual_adjustment movements since watch = foldl (add_manual since) (zeros watch) movements

  abbrev pub add_reward : W → Dict String W → LedgerEntry W → Dict String W
  add_reward since out e =
      let asset = value_or "" e.asset in
      if is_text e.kind "staking" && contains asset out && gt (value_or (lit 0) e.time) since
      then add_to asset (value_or (lit 0) e.amount - value_or (lit 0) e.fee) out
      else out

  unfoldable pub reward_adjustment : Dict String (LedgerEntry W) → W → List String → Dict String W
  unfolding zeros
  reward_adjustment entries since watch =
      foldl (add_reward since) (zeros watch) (map (λ p. p.1) entries)

  -- The movement of one leg, where the asset is watched and the amount is not zero.
  abbrev pub leg :
      Fill W → String → Bool → List String → String × W → List (Movement W) → List (Movement W)
  leg fill pair by_bot watch (asset, amount) rest =
      if member asset watch && not (fl.eq amount (lit 0))
      then record {
        timestamp = value_or (lit 0) fill.time;
        asset = asset;
        pair = pair;
        side = value_or "" fill.kind;
        amount = amount;
        by_bot = by_bot;
        ordertxid = value_or "" fill.ordertxid;
      }
        ∷ rest
      else rest

  -- The legs of a fill, base first. The fee is charged on the quote.
  abbrev pub legs_of : Fill W → String × String → (String × W) × (String × W)
  legs_of fill (base, quote) =
      let vol = value_or (lit 0) fill.vol in
      let cost = value_or (lit 0) fill.cost in
      let fee = value_or (lit 0) fill.fee in
      if is_text fill.kind "buy"
      then ((base, vol), (quote, neg (cost + fee)))
      else ((base, neg vol), (quote, cost - fee))

  abbrev pub attribute_fill :
      List String → List String → Fill W → Option (String × String) → List (Movement W)
  attribute_fill bot_txids watch fill none = []
  attribute_fill bot_txids watch fill (some assets) =
      let by_bot = member (value_or "" fill.ordertxid) bot_txids in
      let pair = value_or "" fill.pair in
      let (base_leg, quote_leg) = legs_of fill assets in
      leg fill pair by_bot watch base_leg (leg fill pair by_bot watch quote_leg [])

  abbrev pub attribute_all :
      Dict String (String × String) → List String → List String → List (Fill W) → List (Movement W)
  attribute_all pair_assets bot_txids watch [] = []
  attribute_all pair_assets bot_txids watch (fill ∷ rest) =
      attribute_fill bot_txids watch fill (lookup (value_or "" fill.pair) pair_assets)
      ++ attribute_all pair_assets bot_txids watch rest

  -- The fills by their dict, the assets of the pairs, the bot's order ids, the watched assets.
  unfoldable pub attribute_movements :
      Dict String (Fill W)
      → Dict String (String × String)
      → List String
      → List String
      → List (Movement W)
  attribute_movements fills pair_assets bot_txids watch =
      attribute_all pair_assets bot_txids watch (
        sorted (λ f g. not (lt (value_or (lit 0) g.time) (value_or (lit 0) f.time)))
          (map (λ p. p.1) fills))

  unfoldable pub residuals : Dict String W → List (Movement W) → List String → Dict String W
  residuals balances movements watch =
      let moved = foldl (λ d m. add_to m.asset m.amount d) [] movements in
      foldl (λ d a. insert a (get_or a (lit 0) balances - get_or a (lit 0) moved) d) [] watch
