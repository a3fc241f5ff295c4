-- ===== src/Readiness.antt =====
-- When a page has stopped changing (sdk/fetch/pipeline/browser/wait.rs).
pub mod Stability
pub mod Frames
pub mod Tally
pub mod Assess
pub mod Wait
pub mod Loop
pub mod Turns
pub mod Held
pub mod Calm
pub mod Rows
pub mod Satisfied
pub mod Progress
pub mod Spelling
mod Tests
mod Rounds
