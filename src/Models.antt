-- ===== src/Models.antt =====
-- cryptotrader/models.py: the records that pass between the components, over the float type `W`.
-- The id that a table gives a row is its position in the table, and is no field here.
pub mod Time
use cryptotrader.Prelude.{
  ℕ, String, Bool, true, false, Option, ◌≡◌, ◌↔◌, ◌⊎◌, inl, inr, refl, arith, Eq,
}
use Time.{DateTime}

pub data Side : Type 0 where
  buy sell : Side

pub data Signal : Type 0 where
  buy_signal sell_signal : Signal

abbrev pub side_beq : Side → Side → Bool
side_beq Side.buy Side.buy = true
side_beq Side.sell Side.sell = true
side_beq _ _ = false

pub side_cases : (s : Side) → (s ≡ Side.buy) ⊎ (s ≡ Side.sell)
side_cases Side.buy = inl refl
side_cases Side.sell = inr refl

pub side_beq_iff : (s t : Side) → (side_beq s t ≡ true) ↔ (s ≡ t)
side_beq_iff s t = ground arith

instance abbrev pub side_eq : Eq Side
side_eq = record { beq = side_beq; beq_iff = side_beq_iff }

module _ (W : Type 0) where
  pub record PriceTick : Type 0 where
    pub pair : String
    pub bid : W
    pub ask : W
    pub last : W
    pub timestamp : DateTime

  pub record Candle : Type 0 where
    pub pair : String
    pub timeframe : ℕ
    pub opening : W
    pub high : W
    pub low : W
    pub close : W
    pub tick_count : ℕ
    pub timestamp : DateTime

  pub record Trade : Type 0 where
    pub pair : String
    pub side : Side
    pub price : W
    pub quantity : W
    pub mode : String
    pub strategy : String
    pub timestamp : DateTime
    pub pnl : Option W
    pub txid : Option String
    pub band_width : Option W

pub data RejectReason : Type 0 where
  insufficient_balance max_order_exceeded daily_loss_limit : RejectReason
  no_open_position balance_check_failed maker_no_fill : RejectReason

-- `detail`, the text for a reader, is not modelled.
module _ (W : Type 0) where
  pub record RejectedOrder : Type 0 where
    pub pair : String
    pub side : Side
    pub price : W
    pub quantity : W
    pub reason : RejectReason
    pub mode : String
    pub strategy : String
    pub timestamp : DateTime

  pub record Deposit : Type 0 where
    pub aud_amount : W
    pub usd_amount : W
    pub fee_usd : W
    pub timestamp : DateTime
    pub notes : Option String
    pub rate_mid : Option W

  pub record StatsResult : Type 0 where
    pub total_trades : ℕ
    pub win_rate : W
    pub total_pnl : W
    pub avg_gain : W
    pub avg_loss : W
    pub buys : ℕ
    pub sells : ℕ

  pub data LogItem : Type 0 where
    traded : Trade W → LogItem
    deposited : Deposit → LogItem
    rejected : RejectedOrder → LogItem
