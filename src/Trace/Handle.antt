-- ===== src/Trace/Handle.antt =====
-- internal/debugtrace/store.go: what the methods of a handle do to their record.
mod Events
mod Segments
mod Stages
unfoldable pub use Events.*
unfoldable pub use Segments.*
unfoldable pub use Stages.*
