-- ===== src/MarketData/Messages.antt =====
-- marketdata/feed_messages.hpp: the messages of the market-data feed. The decoder casts the bytes of a
-- side or an action without a test, so here these fields are their bytes.
use order_matching_engine.Base.{ℕ}
use order_matching_engine.Base.Int.{ℤ}

pub record L2DeltaMsg : Type 0 where
  pub instrument_id : ℕ
  pub feed_seq : ℕ
  pub side : ℕ
  pub action : ℕ
  pub price : ℤ
  pub total_qty : ℤ
  pub order_count : ℕ

pub record L3OrderMsg : Type 0 where
  pub instrument_id : ℕ
  pub feed_seq : ℕ
  pub action : ℕ
  pub order_id : ℤ
  pub side : ℕ
  pub price : ℤ
  pub quantity : ℤ
  pub remaining : ℤ
  pub participant : ℤ

pub record L3FillMsg : Type 0 where
  pub instrument_id : ℕ
  pub feed_seq : ℕ
  pub order_id : ℤ
  pub trade_id : ℤ
  pub price : ℤ
  pub quantity : ℤ
  pub remaining : ℤ

pub record TradeTickMsg : Type 0 where
  pub instrument_id : ℕ
  pub feed_seq : ℕ
  pub trade_id : ℤ
  pub aggressor_id : ℤ
  pub passive_id : ℤ
  pub price : ℤ
  pub quantity : ℤ
  pub aggressor_side : ℕ

pub record SnapshotStartMsg : Type 0 where
  pub instrument_id : ℕ
  pub feed_seq : ℕ
  pub resting_orders : ℕ

pub record SnapshotEndMsg : Type 0 where
  pub instrument_id : ℕ
  pub feed_seq : ℕ
  pub crc32 : ℕ
