-- ===== src/Network.antt =====
-- The requests of a page as the browser reports them: `NetworkCollector` of
-- sdk/fetch/artifacts/collectors.rs, over the records of sdk/fetch/artifacts/network.rs.
pub mod Entry
pub mod Collector
pub mod Events
pub mod StreamBuckets
pub mod Streams
pub mod Buckets
pub mod Kept
pub mod Limits
pub mod Snapshots
pub mod Lookups
pub mod Losses
pub mod Statuses
pub mod Quiet
pub mod Bounds
pub mod Reserve
pub mod Masking
mod Tests
mod StreamTests
