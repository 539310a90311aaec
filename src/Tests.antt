-- ===== src/Tests.antt =====
-- Concrete inputs: a platform, a database in memory, a proxy with an origin, and the theorems at
-- them.
pub mod Data
pub mod Memory
pub mod Fields
pub mod Status
pub mod Caching
pub mod Storage
pub mod Proxy
pub mod Interleaved
pub mod Answers
pub mod Replayed
pub mod Serialized
pub mod Starting
pub mod Updating
