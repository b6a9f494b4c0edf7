-- ===== src/Update.antt =====
-- The plugin dns-update-persistent: RFC 2136 updates of one zone. The state of the plugin, the
-- helpers of zone.go, and the four passes of an update are in the modules below.
pub mod Zone
pub mod Prereqs
pub mod Prescan
pub mod Apply
pub mod Commit
pub mod Http
