-- ===== src/Request.antt =====
-- What one HTTP request carries and where it may be redirected: sdk/fetch/pipeline/request_opts.rs and
-- the loop of sdk/fetch/pipeline/http_only.rs.
pub mod Values
pub mod Options
pub mod Redirects
mod Origins
mod Clean
pub mod Sent
pub mod Credentials
pub mod Methods
pub mod BrowserCookies
pub mod Faithful
pub mod Reported
pub mod Sync
mod Tests
mod BrowserTests
