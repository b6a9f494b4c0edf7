-- ===== src/Tests.antt =====
-- The theorems at concrete inputs, and runs of the definitions.
mod Fixtures
mod Journals
mod Transfers
mod Keyed
mod Updates
mod Http
mod Persists
mod Registries
mod Limiters
mod Caches
mod Catalogs
mod Restarts
mod Filters
mod Views
mod Handlers
