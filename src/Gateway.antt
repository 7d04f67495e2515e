-- ===== src/Gateway.antt =====
-- gateway/: the clients' connections.
pub mod Auth
pub mod Server
pub mod Session
pub mod Router
