-- ===== src/Gateway.antt =====
-- internal/gateway.
pub mod Handler
pub mod Wsconn
pub mod Turn
pub mod Sink
pub mod Speech
pub mod Invariant
