-- ===== src/Engine.antt =====
-- The directory engine/ of the program.
pub mod Order
pub mod PriceLevel
pub mod Match
pub mod OrderBook
