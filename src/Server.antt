-- ===== src/Server.antt =====
-- always-cache.go and updater.go: the proxy.
pub mod Asked
pub mod State
pub mod Store
pub mod Updater
pub mod Handler
pub mod Run
pub mod Goroutines
pub mod Responses
pub mod Total
pub mod Silent
pub mod Counts
pub mod Logging
