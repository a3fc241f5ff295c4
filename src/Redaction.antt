-- ===== src/Redaction.antt =====
-- Secrets that are masked before anything is written: shared/redact.rs.
pub mod Headers
pub mod Values
pub mod Leaves
pub mod Paths
pub mod Masks
pub mod Captures
mod Tests
