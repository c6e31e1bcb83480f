-- ===== src/Strategy/Threshold.antt =====
-- cryptotrader/strategy/threshold.py: fixed price triggers, on every tick.
use cryptotrader.Prelude.{
  String, Bool, true, false, not, ◌&&◌, if◌then◌else◌, Option, none, some, List, [], ◌∷◌, last?,
}
use cryptotrader.Float.{Float, le, ge}
use cryptotrader.Models.{PriceTick, Trade, Side, Signal, buy_signal, sell_signal}
use cryptotrader.Database.{Database, query_trades}
use cryptotrader.Statistics.{position_filters}
use cryptotrader.Strategy.Belief.{Base, Attr, in_position_attr, flat, arm_rollback}

-- `Strategy.POSITION_ATTRS`, which three of the strategies inherit.
abbrev pub flag_only : List Attr
flag_only = in_position_attr ∷ []

module _ {W : Type 0} where
  -- The flag moves; the class has no entry price.
  abbrev pub set_flag : Base W → Bool → Base W
  set_flag b v = record b { position = record (b.position) { in_position = v } }

  -- The test `trades and trades[-1].side == Side.BUY`.
  abbrev pub if_buy : Option (Trade W) → Option (Trade W)
  if_buy none = none
  if_buy (some t) = elim t.side [ Side.buy ↦ some t | Side.sell ↦ none ]

  -- The same on the log of the strategy's own position.
  unfoldable pub last_buy : Database W → String → String → String → Option (Trade W)
  last_buy db pair mode name =
      if_buy (last? (query_trades db (position_filters pair mode (some name))))

  abbrev pub restore_flag : Base W → Option (Trade W) → Base W
  restore_flag b none = b
  restore_flag b (some t) = set_flag b true

module _ (W : Type 0) where
  pub record ThresholdStrategy : Type 0 where
    pub base : Base W
    pub buy_trigger : W
    pub sell_trigger : W

  pub record ThresholdParams : Type 0 where
    pub buy_trigger : W
    pub sell_trigger : W

module _ {W : Type 0} where
  unfoldable pub new_threshold : ThresholdParams W → ThresholdStrategy W
  new_threshold p = record {
    base = flat;
    buy_trigger = p.buy_trigger;
    sell_trigger = p.sell_trigger;
  }

  unfoldable pub restore_threshold :
      ThresholdStrategy W → Database W → String → String → ThresholdStrategy W
  restore_threshold s db pair mode = record s {
    base = restore_flag s.base (last_buy db pair mode "threshold");
  }

module _ {W : Type 0} ⦃fl : Float W⦄ where
  unfoldable pub evaluate_threshold :
      ThresholdStrategy W → PriceTick W → ThresholdStrategy W × Option Signal
  evaluate_threshold s tick =
      let long = s.base.position.in_position in
      if not long && le tick.ask s.buy_trigger
      then (record s { base = set_flag (arm_rollback flag_only s.base) true }, some buy_signal)
      else if long && ge tick.bid s.sell_trigger
      then (record s { base = set_flag (arm_rollback flag_only s.base) false }, some sell_signal)
      else (s, none)
