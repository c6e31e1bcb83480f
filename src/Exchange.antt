-- ===== src/Exchange.antt =====
-- cryptotrader/exchange: the client of the exchange's private calls and its public price feed.
pub mod Bucket
pub mod Rest
pub mod Feed
