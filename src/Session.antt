-- ===== src/Session.antt =====
-- internal/session/pipeline.go: one voice turn over providers and a sink.
--
-- The providers are interfaces that may be missing. The log is left out, and so is the time that only
-- the log reads. The counter of ids does not wrap, and no other turn counts between the two ids of a
-- turn.
pub mod Types
pub mod Pipeline
pub mod Script
pub mod Traces
pub mod Streams
pub mod Speech
pub mod Refinement
