-- ===== src/Voicews.antt =====
-- The voice WebSocket session of internal/voicews/session.go.
pub mod Values
pub mod Segmenter
pub mod Subsequence
pub mod Echo
pub mod Memory
pub mod State
pub mod Input
pub mod Mcp
pub mod Response
pub mod Lifecycle
pub mod Update
pub mod Events
