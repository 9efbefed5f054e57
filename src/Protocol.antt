-- ===== src/Protocol.antt =====
-- internal/protocol.
pub mod Types
pub mod Validate
pub mod Stream
pub mod Envelope
