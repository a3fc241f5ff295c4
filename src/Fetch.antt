-- ===== src/Fetch.antt =====
-- One fetch: sdk/fetch/mod.rs and sdk/fetch/pipeline.
pub mod Execute
pub mod Retry
pub mod Transports
pub mod Attempts
mod Tests
