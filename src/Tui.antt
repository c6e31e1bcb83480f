-- ===== src/Tui.antt =====
-- cryptotrader/tui: the screen. A widget of the terminal library is what was written to it; the
-- markup, the layout and the fixed texts are not modelled.
pub mod TradeLog
pub mod Prices
pub mod Weekly
pub mod Balances
pub mod App
mod Tests
