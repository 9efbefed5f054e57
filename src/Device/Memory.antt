-- ===== src/Device/Memory.antt =====
-- internal/device/memory_repository.go: the repository in memory, each method a function of the
-- tables.
pub mod Directory
pub mod Configs
pub mod Tokens
pub mod Changes
pub mod Invariant
pub mod TokenLaws
pub mod ListLaws
pub mod ConfigLaws
pub mod AsRepository
