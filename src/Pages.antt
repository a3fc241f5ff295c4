-- ===== src/Pages.antt =====
-- Pages that load but are not the content that was asked for (sdk/fetch/page_classification.rs).
pub mod Classification
pub mod Phrases
pub mod Wording
pub mod Scripts
mod Tests
