-- ===== src/Control.antt =====
-- internal/service: the control plane over the device service.
pub mod Plane
pub mod Access
pub mod AsInterface
