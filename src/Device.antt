-- ===== src/Device.antt =====
-- internal/device.
pub mod Model
pub mod Tables
pub mod Memory
pub mod Repository
pub mod Service
pub mod Seed
