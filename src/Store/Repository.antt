-- ===== src/Store/Repository.antt =====
-- internal/store/file_repository.go: the repository over a file. Every write changes the state in
-- memory first and then replaces the file; the clock is the sequence of its readings.
pub mod Flush
pub mod Methods
pub mod FlushLaws
pub mod Refinement
pub mod Reload
pub mod Runs
