-- ===== src/Container.antt =====
-- The container that `afhttp container install` makes: cli/cmd/container.rs.
pub mod Backends
pub mod HostArgs
pub mod Install
pub mod Defaults
pub mod Chosen
pub mod Accepted
mod Tests
