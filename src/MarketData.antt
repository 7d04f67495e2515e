-- ===== src/MarketData.antt =====
-- marketdata/: the binary feed.
pub mod Messages
pub mod Encoder
pub mod Feed
