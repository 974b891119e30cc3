-- ===== src/Events.antt =====
-- internal/event: the lifecycle of events and the cache of their public payloads.
pub mod Types
pub mod Rows
pub mod Create
pub mod Lifecycle
pub mod Gallery
pub mod Serve
pub mod Lookups
pub mod Apart
pub mod Writes
pub mod Caching
pub mod Announced
pub mod Days
pub mod Pictures
