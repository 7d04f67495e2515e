-- ===== src/Book.antt =====
-- The directory book/ of the program.
pub mod LevelMap
pub mod IdSet
