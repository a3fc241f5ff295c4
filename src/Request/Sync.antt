-- ===== src/Request/Sync.antt =====
-- What the browser reports of the cookies of the jar is not merged again.
use agent_first_http.Prelude.{◌≡◌, Bool, false, some, List, ℤ, map, All, starts_with_char}
use agent_first_http.Errors.{ok}
use agent_first_http.Cookies.Scope.{Url, HostNames}
use agent_first_http.Cookies.Entry.{JarEntry, to_cookie}
use agent_first_http.Cookies.Jar.{CookieJar, host_or_empty}
use agent_first_http.Request.Values.{Wiring}
use agent_first_http.Request.Redirects.{sendable}
use agent_first_http.Request.BrowserCookies.{
  CdpCookieParam, CdpCookie, cookie_params, merge_browser_cookies,
}
use agent_first_http.Request.Faithful.{IsFaithful}

module _ (names : HostNames) (in_range : ℤ → Bool) (w : Wiring)
    (browser : CdpCookieParam → CdpCookie) (url : Url) (injected disk : CookieJar)
    (now sent later : ℤ) (bare : starts_with_char (host_or_empty url.host) b'.' ≡ false) where
  -- What is reported of some entries is skipped.
  abbrev IsSkipped : List JarEntry → Type 0
  IsSkipped es =
      (params : List CdpCookieParam)
      → cookie_params sent url (sendable w now (map (to_cookie in_range) es)) ≡ ok params
      → All (λ q. IsFaithful q (browser q)) params
      → merge_browser_cookies names in_range (some injected) url later (map browser params) disk
        ≡ (disk, 0)
