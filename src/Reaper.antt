-- ===== src/Reaper.antt =====
-- The idle-tab reaper of host/reaper.rs.
pub mod Sweep
pub mod Safety
pub mod Drivers
pub mod History
mod Tests
