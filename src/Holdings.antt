-- ===== src/Holdings.antt =====
-- Which connection holds which tab: host/listener/target_ledger.rs, and the parts of
-- host/listener/mod.rs and host/listener/cdp_proxy.rs that use it.
pub mod Ledger
pub mod Holders
pub mod Connections
pub mod Tally
pub mod Accounting
pub mod Orphans
mod Tests
