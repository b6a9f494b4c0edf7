-- ===== src/Secondary.antt =====
-- The plugin secondary-persistent.
pub mod Xfr
pub mod Persist
pub mod Catalog
pub mod Origins
pub mod Primary
