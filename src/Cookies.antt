-- ===== src/Cookies.antt =====
-- The cookie jar of sdk/profile/cookie_jar.rs: its definitions, and what is proved of them.
pub mod Scope
pub mod Entry
pub mod Jar
pub mod Identity
pub mod Merging
pub mod Isolation
pub mod Plaintext
pub mod Persisting
pub mod Matching
pub mod OwnUrl
mod Tests
