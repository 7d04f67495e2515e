-- ===== src/Ipc.antt =====
-- ipc/: what passes between the threads.
pub mod Command
pub mod SpscRing
pub mod OutboundEvent
