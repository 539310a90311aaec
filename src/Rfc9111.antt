-- ===== src/Rfc9111.antt =====
-- Package rfc9111: what the HTTP caching standard asks of a shared cache, a module for each group
-- of the package's files, which are named by the sections of the standard.
pub mod Syntax
pub mod CacheControl
pub mod Fields
pub mod Storing
pub mod Age
pub mod Freshness
pub mod Validation
pub mod Reuse
pub mod Invalidation
pub mod Entry
