-- ===== src/Backtest.antt =====
-- scripts/backtest.py: the replay of hourly candles through a variant of the Bollinger strategy, with
-- the fees of the exchange.
pub mod Data
pub mod Rules
pub mod Loop
pub mod Books
pub mod Coherent
pub mod Pairing
pub mod Reproduced
pub mod Validate
mod Tests
