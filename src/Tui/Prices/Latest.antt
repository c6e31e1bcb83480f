-- ===== src/Tui/Prices/Latest.antt =====
-- The row of a pair after any run of ticks.
use cryptotrader.Prelude.{
  String, ◌≡◌, refl, ap, ◌∙◌, Bool, false, ◌==◌, string_eq, if◌then◌else◌, Option, some, List, [],
  ◌∷◌, ◌++◌, All,
}
use mathlib.Core.List.{foldl-append}
use cryptotrader.Prelude.Dict.{lookup, lookup-insert, lookup-insert_self}
use cryptotrader.Float.{Float}
use cryptotrader.Models.{PriceTick}
use cryptotrader.Tui.Prices.{PricePanel, price_row, update_tick, update_all}

module _ {W : Type 0} where
  -- The last price of a pair among the ticks, or else the one before them.
  abbrev pub last_price : String → Option W → List (PriceTick W) → Option W
  last_price p before [] = before
  last_price p before (t ∷ ts) = last_price p (if t.pair == p then some t.last else before) ts

module _ {W : Type 0} ⦃fl : Float W⦄ (use_utc : Bool) where
  last_prices-update_all :
      (p : String) (ts : List (PriceTick W)) (panel : PricePanel W)
      → lookup p (update_all use_utc panel ts).last_prices
        ≡ last_price p (lookup p panel.last_prices) ts
  unfolding update_all update_tick
  last_prices-update_all p [] panel = refl
  last_prices-update_all p (t ∷ ts) panel =
      last_prices-update_all p ts (update_tick use_utc panel t)
      ∙ ap (λ o. last_price p o ts) (lookup-insert t.pair p t.last panel.last_prices)

  -- Ticks of other pairs leave the row alone.
  table-update_all :
      (p : String) (ts : List (PriceTick W)) (panel : PricePanel W)
      → All (λ t. (t.pair == p) ≡ false) ts
      → lookup p (update_all use_utc panel ts).table ≡ lookup p panel.table
  unfolding update_all update_tick
  table-update_all p [] panel h = refl
  table-update_all p (t ∷ ts) panel h =
      table-update_all p ts (update_tick use_utc panel t) h.1
      ∙ lookup-insert t.pair p _ panel.table
      ∙ rw h.0 refl

pub update_all-latest :
    {W : Type 0} ⦃fl : Float W⦄ (use_utc : Bool) (panel : PricePanel W)
    (earlier : List (PriceTick W)) (t : PriceTick W) (later : List (PriceTick W))
    → All (λ (u : PriceTick W). (u.pair == t.pair) ≡ false) later
    → lookup t.pair (update_all use_utc panel (earlier ++ t ∷ later)).table
      ≡ some (price_row use_utc (last_price t.pair (lookup t.pair panel.last_prices) earlier) t)
unfolding update_all update_tick
update_all-latest use_utc panel earlier t later h =
    let before = update_all use_utc panel earlier in
    ap (λ (q : PricePanel _). lookup t.pair q.table)
      (foldl-append (update_tick use_utc) panel earlier (t ∷ later))
    ∙ table-update_all use_utc t.pair later (update_tick use_utc before t) h
    ∙ lookup-insert_self t.pair _ before.table
    ∙ ap (λ o. some (price_row use_utc o t)) (last_prices-update_all use_utc t.pair earlier panel)
