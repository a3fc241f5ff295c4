-- ===== src/Listener.antt =====
-- Who may use the host: the access checks and credentials of host/listener/mod.rs.
pub mod Secrets
pub mod Requests
pub mod Handoffs
pub mod Access
pub mod Admission
pub mod Origins
mod Tests
