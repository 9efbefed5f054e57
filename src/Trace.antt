-- ===== src/Trace.antt =====
-- internal/debugtrace.
pub mod Audio
pub mod Types
pub mod Store
pub mod Handle
pub mod Changes
pub mod Bounds
pub mod Deltas
pub mod Invariant
