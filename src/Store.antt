-- ===== src/Store.antt =====
-- internal/store: the repository that keeps its state in one JSON file.
pub mod State
pub mod Disk
pub mod Repository
