-- ===== src/Sync.antt =====
-- internal/sync: pairing of devices, streams, groups, and the configuration.
pub mod Discovery
pub mod Protocols
pub mod Node
pub mod Streams
pub mod Topics
pub mod Publisher
pub mod Config
pub mod External
pub mod Manager
pub mod Pairing
