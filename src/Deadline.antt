-- ===== src/Deadline.antt =====
-- The deadline of a fetch and the trace of its stages (sdk/fetch/deadline.rs).
pub mod Recorder
pub mod Stages
mod Tests
