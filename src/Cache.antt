-- ===== src/Cache.antt =====
-- The plugin split-horizon-cache.
pub mod Message
pub mod Chain
pub mod Keys
pub mod Item
pub mod State
pub mod Writer
pub mod Verify
pub mod Lookup
pub mod Handler
pub mod Scopes
