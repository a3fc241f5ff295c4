-- ===== src/Lib.antt =====
-- Verification of agent-first-http: fetching a URL over HTTP or with a browser, the cookie jar that a
-- fetch reads and writes, and the host that keeps one browser and lends it to clients.
--
-- The program. A fetch (src/sdk/fetch) checks what the caller gave, tries HTTP, the browser, or HTTP and
-- then the browser, and returns a result with a trace. Its HTTP part reads cookies from a jar
-- (src/sdk/profile/cookie_jar.rs) at each hop and stores those of each response. The browser is run by a
-- host (src/host): clients reach it through a proxy for the DevTools protocol, a middleware decides
-- which requests are answered, a reaper closes tabs that nobody drives, and the host can be switched to
-- another profile.
--
-- The modules.
--   Prelude         texts as lists of code points, lists, signed numbers, sets and maps, bits, and the
--                   Boolean tests with the lemmas that the tactics read them by
--   Errors          src/shared/error.rs: `ErrorCode`, its defaults and names, `Error`, `Result`
--   Cookies         src/sdk/profile/cookie_jar.rs: Scope has the rules on hosts and paths, Entry the
--                   `JarEntry` and its conversions, Jar the operations of `CookieJar`; the other children
--                   prove what merging, sending and persisting do
--   Pages           src/sdk/fetch/page_classification.rs and the checks on a body in
--                   src/sdk/fetch/pipeline/http_only.rs
--   Request         src/sdk/fetch/pipeline/request_opts.rs (Values, Options) and `send_http_response` of
--                   src/sdk/fetch/pipeline/http_only.rs with `persist_set_cookies` of
--                   src/sdk/fetch/pipeline/cookie_jar_resolve.rs (Redirects); and the cookies that the
--                   browser is given and reports back, of src/sdk/fetch/pipeline/browser/mod.rs and
--                   src/sdk/fetch/pipeline/cookie_jar_resolve.rs (BrowserCookies)
--   Fetch           `execute` of src/sdk/fetch/pipeline/mod.rs (Execute), `send_detailed` of
--                   src/sdk/fetch/mod.rs (Retry)
--   Deadline        src/sdk/fetch/deadline.rs: the stages of a fetch (Recorder)
--   Network         src/sdk/fetch/artifacts/collectors.rs: the entries of a page's requests (Entry), the
--                   state of `NetworkCollector` (Collector), `handle_event` and the loop that receives
--                   (Events), what is read from the state (Snapshots), and the frames and events of streams
--                   (StreamBuckets, Streams)
--   Readiness       src/sdk/fetch/pipeline/browser/wait.rs: `StabilityTracker` (Stability) and
--                   `wait_for_readiness` (Loop; with its clock, Turns); src/sdk/fetch/pipeline/browser/readiness.rs: the records
--                   (Frames) and `assess` (Assess); src/sdk/fetch/wait.rs (Wait)
--   Container       src/cli/cmd/container.rs: the options of `container install`: the backends (Backends), the
--                   arguments for the host (HostArgs), the defaults and refusals (Install)
--   CdpClient       src/sdk/cdp/ws_client.rs: the requests that wait for replies (Requests)
--   Redaction       src/shared/redact.rs: the headers that are masked (Headers), and `redact_url_fields`
--                   (Values)
--   Holdings        src/host/listener/target_ledger.rs (Ledger), the holders of
--                   src/host/listener/mod.rs (Holders), and the connections of
--                   src/host/listener/cdp_proxy.rs as a sequence of events (Connections)
--   Reaper          `sweep` of src/host/reaper.rs, one sweep and histories of sweeps
--   Listener        `token_middleware` of src/host/listener/mod.rs (Access), what it reads from a request
--                   (Requests), the takeover credentials (Handoffs) and `constant_time_eq` (Secrets)
--   Profiles        src/sdk/profile/paths.rs (Names), src/host/listener/recent_requests.rs (Recent) and
--                   `ensure_profile` of src/host/listener/mod.rs (Switch), src/sdk/profile/lock.rs (Lock) and
--                   `remove_profile_dir` of src/sdk/profile/mod.rs (Removal)
--
-- How state and operations are modelled. A struct is a record and an enum a data type with the source's
-- cases; a method takes the old state and returns the new one with its result. What is read from outside
-- (the clock, files, answers of servers and of the browser) is an argument, or a record of the answers
-- at each step. Sections that hold a lock are single events, so an interleaving of connections is a list
-- of events. The parts that are not in this repository are arguments: the parsers of URLs, cookies and
-- HTML, the public-suffix list, the tests of the http crate on header values, the credentials of
-- agent_first_ui, the redactor of agent_first_data, and of the standard library the Unicode tables and the
-- parser of IP addresses. Durations and instants are natural numbers, timestamps signed ones. The texts
-- of errors are left out.
--
-- Loops. Lists are run through by structural recursion. The retry loop has as fuel the number of
-- attempts it may make, and the loop over redirects has the 11 rounds of `0..=10`; that both are enough
-- is proved below.
--
-- Not modelled: the command line (src/cli, but for the options of an install), the start of browsers
-- and displays (src/host/browser, src/host/takeover), how a connection to the browser is opened
-- (src/sdk/cdp), the rest of the browser path of a fetch and its artifacts
-- (src/sdk/fetch/pipeline/browser, src/sdk/fetch/artifacts), the timeouts of the asynchronous runtime but
-- for those of a stage, of a call to the browser and of the wait for a page, and the redirects that the
-- HTTP client follows by itself when there is no jar.
mod Prelude
pub mod Errors
pub mod Cookies
pub mod Holdings
pub mod Reaper
pub mod Pages
pub mod Readiness
pub mod Deadline
pub mod Request
pub mod Fetch
pub mod Listener
pub mod CdpClient
pub mod Network
pub mod Redaction
pub mod Profiles
pub mod Container
