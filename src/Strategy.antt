-- ===== src/Strategy.antt =====
-- cryptotrader/strategy/registry.py and the interface of strategy/base.py: the four strategies as
-- one type, with the methods that the trader calls on any of them. A method that raises loses the
-- state that it built: no handler of the program lies between such a raise and the end of the loop.
pub mod Belief
pub mod Threshold
pub mod Ema
pub mod Bollinger
pub mod TrendPullback
pub mod Rollback
pub mod Proposals
pub mod Contract
pub mod Restart
mod Tests
use cryptotrader.Prelude.{
  String, Bool, Option, none, some, List, [], ◌∷◌, Result, ok, raise, key_error, ◌>>=◌, ◌==◌,
  string_eq, if◌then◌else◌,
}
use cryptotrader.Float.{Float}
use cryptotrader.Models.{PriceTick, Signal}
use cryptotrader.Database.{Database}
use cryptotrader.Strategy.Belief
use cryptotrader.Strategy.Belief.{Base}
use cryptotrader.Strategy.Threshold.{
  ThresholdStrategy, ThresholdParams, new_threshold, restore_threshold, evaluate_threshold,
}
use cryptotrader.Strategy.Ema.{EmaStrategy, EmaParams, new_ema, restore_ema, evaluate_ema}
use cryptotrader.Strategy.Bollinger.{
  BollingerStrategy, BollingerParams, new_bollinger, restore_bollinger, evaluate_bollinger,
}
use cryptotrader.Strategy.TrendPullback.{
  TrendPullbackStrategy, TrendPullbackParams, new_trend_pullback, restore_trend_pullback,
  evaluate_trend_pullback,
}

module _ (W : Type 0) where
  pub data Strategy : Type 0 where
    threshold_s : ThresholdStrategy W → Strategy
    ema_s : EmaStrategy W → Strategy
    bollinger_s : BollingerStrategy W → Strategy
    trend_pullback_s : TrendPullbackStrategy W → Strategy

  -- `CurrencyConfig`: how one pair is traded.
  pub record CurrencyConfig : Type 0 where
    pub strategy : String
    pub quantity : W
    pub budget_usd : Option W
    pub max_order_usd : W
    pub threshold : ThresholdParams W
    pub ema : EmaParams W
    pub bollinger : BollingerParams W
    pub trend_pullback : TrendPullbackParams

-- The classes of the registry.
pub data Kind : Type 0 where
  threshold_k ema_k bollinger_k trend_pullback_k : Kind

-- `ALL_STRATEGIES`, in the order of the registry.
abbrev pub all_strategies : List Kind
all_strategies = threshold_k ∷ ema_k ∷ bollinger_k ∷ trend_pullback_k ∷ []

abbrev pub kind_name : Kind → String
kind_name threshold_k = "threshold"
kind_name ema_k = "ema"
kind_name bollinger_k = "bollinger"
kind_name trend_pullback_k = "trend_pullback"

-- `get`, which raises on a name that is not registered.
abbrev pub find_kind : String → List Kind → Result Kind
find_kind name [] = raise key_error
find_kind name (k ∷ ks) = if kind_name k == name then ok k else find_kind name ks

unfoldable pub get_strategy : String → Result Kind
get_strategy name = find_kind name all_strategies

module _ {W : Type 0} where
  -- `cls(cfg)`
  unfoldable pub construct : Kind → CurrencyConfig W → Strategy W
  construct threshold_k cfg = threshold_s (new_threshold cfg.threshold)
  construct ema_k cfg = ema_s (new_ema cfg.ema)
  construct bollinger_k cfg = bollinger_s (new_bollinger cfg.bollinger)
  construct trend_pullback_k cfg = trend_pullback_s (new_trend_pullback cfg.trend_pullback)

  -- The property `name`.
  abbrev pub name_of : Strategy W → String
  name_of (threshold_s _) = "threshold"
  name_of (ema_s _) = "ema"
  name_of (bollinger_s _) = "bollinger"
  name_of (trend_pullback_s _) = "trend_pullback"

  abbrev pub base_of : Strategy W → Base W
  base_of (threshold_s s) = s.base
  base_of (ema_s s) = s.base
  base_of (bollinger_s s) = s.base
  base_of (trend_pullback_s s) = s.base

  abbrev pub on_base : (Base W → Base W) → Strategy W → Strategy W
  on_base f (threshold_s s) = threshold_s (record s { base = f s.base })
  on_base f (ema_s s) = ema_s (record s { base = f s.base })
  on_base f (bollinger_s s) = bollinger_s (record s { base = f s.base })
  on_base f (trend_pullback_s s) = trend_pullback_s (record s { base = f s.base })

  -- `on_order_rejected` and `on_order_filled`, which no class overrides.
  unfoldable pub on_order_rejected : Strategy W → Strategy W
  on_order_rejected = on_base Belief.on_order_rejected

  unfoldable pub on_order_filled : Strategy W → Strategy W
  on_order_filled = on_base Belief.on_order_filled

  unfoldable pub restore : Strategy W → Database W → String → String → Strategy W
  restore (threshold_s s) db pair mode = threshold_s (restore_threshold s db pair mode)
  restore (ema_s s) db pair mode = ema_s (restore_ema s db pair mode)
  restore (bollinger_s s) db pair mode = bollinger_s (restore_bollinger s db pair mode)
  restore (trend_pullback_s s) db pair mode =
      trend_pullback_s (restore_trend_pullback s db pair mode)

  -- `getattr(strategy, "last_band_width", None)`
  abbrev pub band_width_of : Strategy W → Option W
  band_width_of (bollinger_s s) = s.last_band_width
  band_width_of _ = none

module _ {W : Type 0} ⦃fl : Float W⦄ where
  unfoldable pub evaluate :
      Strategy W → Database W → PriceTick W → Result (Strategy W × Database W × Option Signal)
  evaluate (threshold_s s) db tick =
      let (t, signal) = evaluate_threshold s tick in ok (threshold_s t, db, signal)
  evaluate (ema_s s) db tick = do (t, db', g) ← evaluate_ema s db tick; ok (ema_s t, db', g)
  evaluate (bollinger_s s) db tick = do
    (t, db', g) ← evaluate_bollinger s db tick
    ok (bollinger_s t, db', g)
  evaluate (trend_pullback_s s) db tick = do
    (t, db', g) ← evaluate_trend_pullback s db tick
    ok (trend_pullback_s t, db', g)
