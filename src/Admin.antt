-- ===== src/Admin.antt =====
-- The plugin admin.
pub mod Limiter
pub mod Filter
pub mod Views
