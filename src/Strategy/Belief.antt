-- ===== src/Strategy/Belief.antt =====
-- cryptotrader/strategy/base.py: the position that a strategy believes in, and the rollback that
-- it arms before it changes that belief.
use cryptotrader.Prelude.{Bool, true, false, ◌||◌, if◌then◌else◌, Option, none, some, List, [], ◌∷◌}

-- The attributes that `POSITION_ATTRS` may list.
pub data Attr : Type 0 where
  in_position_attr entry_price_attr : Attr

abbrev pub is_attr : Attr → Attr → Bool
is_attr in_position_attr in_position_attr = true
is_attr entry_price_attr entry_price_attr = true
is_attr _ _ = false

abbrev pub lists : List Attr → Attr → Bool
lists [] a = false
lists (b ∷ bs) a = is_attr b a || lists bs a

module _ (W : Type 0) where
  -- `_in_position` and, where a class has it, `_entry_price`.
  pub record Position : Type 0 where
    pub in_position : Bool
    pub entry_price : Option W

  -- The dict `_pending_state`: an attribute that is no key of it is `none`.
  pub record Snapshot : Type 0 where
    pub saved_in_position : Option Bool
    pub saved_entry_price : Option (Option W)

  pub record Base : Type 0 where
    pub position : Position
    pub pending : Option Snapshot

module _ {A : Type 0} where
  abbrev pub saved : List Attr → Attr → A → Option A
  saved attrs a v = if lists attrs a then some v else none

  abbrev pub or_keep : Option A → A → A
  or_keep none v = v
  or_keep (some w) v = w

module _ {W : Type 0} where
  abbrev pub flat : Base W
  flat = record { position = record { in_position = false; entry_price = none }; pending = none }

  -- `_arm_rollback`, for the class attribute `POSITION_ATTRS`.
  unfoldable pub arm_rollback : List Attr → Base W → Base W
  arm_rollback attrs b = record b {
    pending = some (record {
      saved_in_position = saved attrs in_position_attr b.position.in_position;
      saved_entry_price = saved attrs entry_price_attr b.position.entry_price;
    });
  }

  -- `setattr` for each key of the dict.
  unfoldable pub set_back : Snapshot W → Position W → Position W
  set_back s p = record {
    in_position = or_keep s.saved_in_position p.in_position;
    entry_price = or_keep s.saved_entry_price p.entry_price;
  }

  unfoldable pub on_order_rejected : Base W → Base W
  on_order_rejected b = elim b.pending [
    | none ↦ b
    | some s ↦ record { position = set_back s b.position; pending = none }
  ]

  unfoldable pub on_order_filled : Base W → Base W
  on_order_filled b = record b { pending = none }
