-- ===== src/Desk.antt =====
-- The state that the executor, the maker book and the trader share: the trade log, what was sent
-- to the exchange, the queue of the TUI, the resting entries, and the rollbacks that were called.
-- `C` names a callback: a strategy's `on_order_rejected`, known by its owner.
use cryptotrader.Prelude.{
  ℕ, ltb, leb, String, Bool, ◌&&◌, if◌then◌else◌, Option, none, some, List, [], ◌∷◌, ◌++◌, Result,
  ok, raise, Error, length, true, false, filter,
}
use cryptotrader.Prelude.Dict.{Dict}
use cryptotrader.Models.{LogItem, Side}
use cryptotrader.Models.Time.{DateTime}
use cryptotrader.Database.{Database}

-- A call of the exchange client, whatever came of it: one that raises may have reached the
-- exchange. The queries for the status of an order are not kept.
pub data Request (W : Type 0) : Type 0 where
  -- pair, side and volume of a market order
  market_order : String → Side → W → Request W
  -- pair, side, volume, price and expiry in seconds of a post-only limit
  post_only : String → Side → W → W → ℕ → Request W
  cancel : String → Request W
  balance_query : Request W

abbrev pub is_act : {W : Type 0} → Request W → Bool
is_act (market_order pair side q) = true
is_act (post_only pair side q price expiry) = true
is_act (cancel txid) = true
is_act balance_query = false

-- The calls that are more than a reading of the balance.
abbrev pub acts : {W : Type 0} → List (Request W) → List (Request W)
acts = filter is_act

-- `asyncio.Queue`: a `maxsize` of 0 is no limit.
pub record Queue (A : Type 0) : Type 0 where
  pub maxsize : ℕ
  pub items : List A

abbrev pub is_full : {A : Type 0} → Queue A → Bool
is_full q = ltb 0 q.maxsize && leb q.maxsize (length q.items)

-- `put_nowait`, where the caller drops the item on `QueueFull`.
unfoldable pub put_or_drop : {A : Type 0} → Option (Queue A) → A → Option (Queue A)
put_or_drop none a = none
put_or_drop (some q) a = some (if is_full q then q else record q { items = q.items ++ a ∷ [] })

module _ (W C : Type 0) where
  -- maker.py: `RestingEntry`
  pub record RestingEntry : Type 0 where
    pub pair : String
    pub limit_price : W
    pub quantity : W
    pub strategy : String
    pub mode : String
    pub deadline : DateTime
    pub max_drift_pct : W
    pub band_width : Option W
    pub on_reject : Option C
    pub placed_at : DateTime
    pub txid : Option String

  pub record Desk : Type 0 where
    pub db : Database W
    pub sent : List (Request W)
    pub tui : Option (Queue (LogItem W))
    -- Whether there is a maker book, and its dict `_resting` by pair and strategy.
    pub has_book : Bool
    pub resting : Dict (String × String) RestingEntry
    -- The rollbacks called so far, newest last.
    pub called : List C

-- A method call: what it wrote stays written when it raises.
abbrev pub Action : Type 0 → Type 0 → Type 0 → Type 0
Action W C A = Desk W C → Result A × Desk W C

abbrev pub pure : {W C A : Type 0} → A → Action W C A
pure a d = (ok a, d)

abbrev pub fail : {W C A : Type 0} → Error → Action W C A
fail e d = (raise e, d)

infixl 5 ◌>>=◌ ◌>>◌
abbrev pub ◌>>=◌ : {W C A B : Type 0} → Action W C A → (A → Action W C B) → Action W C B
◌>>=◌ m f d = let (r, d') = m d in elim r [ ok a ↦ f a d' | raise e ↦ (raise e, d') ]

abbrev pub ◌>>◌ : {W C A B : Type 0} → Action W C A → Action W C B → Action W C B
m >> k = m >>= λ _. k
