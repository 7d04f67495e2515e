-- ===== src/Protocol.antt =====
-- protocol/: the binary frames of the order-entry connection.
pub mod Wire
pub mod Messages
pub mod Encoder
pub mod Decoder
