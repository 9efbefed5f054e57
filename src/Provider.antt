-- ===== src/Provider.antt =====
-- internal/provider.
pub mod Types
pub mod Clients
