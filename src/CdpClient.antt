-- ===== src/CdpClient.antt =====
-- The client for the DevTools protocol: sdk/cdp/ws_client.rs.
pub mod Requests
pub mod Steps
pub mod Soundness
pub mod Slots
pub mod Ended
pub mod Calls
mod Tests
