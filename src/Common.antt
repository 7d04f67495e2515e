-- ===== src/Common.antt =====
-- The directory common/ of the program.
pub mod Types
pub mod ObjectPool
pub mod Crc32
