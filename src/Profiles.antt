-- ===== src/Profiles.antt =====
-- Profiles of the browser: their names, the switch from one to another at run time, and the requests
-- that the host remembers of the current one.
pub mod Names
pub mod Places
pub mod Recent
pub mod Switch
pub mod Outcomes
pub mod Lock
pub mod Removal
pub mod Moves
pub mod Exclusion
mod Tests
mod LockTests
mod RemovalTests
