-- ===== src/Runtime.antt =====
-- runtime/: the thread around the engine.
pub mod MatchingThread
