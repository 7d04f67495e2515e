-- ===== src/Tests.antt =====
-- Concrete runs, and each theorem at an input that meets its hypotheses.
pub mod Engine
pub mod Book
pub mod Stream
pub mod Match
pub mod Replay
pub mod Pool
pub mod Ring
pub mod Sequencer
pub mod Gateway
pub mod Journal
pub mod Runtime
