-- ===== src/Request/BrowserCookies.antt =====
-- The cookies that a fetch gives to the browser and takes back from it: `apply_request_options` and
-- `cdp_cookie_param` of sdk/fetch/pipeline/browser/mod.rs, `merge_browser_cookies` and
-- `cdp_cookie_to_set_cookie` of sdk/fetch/pipeline/cookie_jar_resolve.rs.
use agent_first_http.Prelude.{
  ℕ, suc, Text, codes, Bool, true, false, not, ◌&&◌, Option, none, some, List, [], ◌∷◌, ◌==◌,
  if◌then◌else◌, text_eq, ℤ, ◌++◌,
}
use agent_first_http.Errors.{Result, ok, ◌>>=◌, ◌>>◌}
use agent_first_http.Cookies.Scope.{Url, HostNames}
use agent_first_http.Cookies.Entry.{Cookie, Expiration, date_time, site_name, site_of}
use agent_first_http.Cookies.Jar.{CookieJar, merge, holds_unchanged, host_or_empty}
use agent_first_http.Request.Values.{
  PreparedCookie, is_some_true, effective_cookie_secure, cookie_is_expired, validate_cookie_scope,
}

-- A cookie of `Network.setCookies`: the members of the JSON object that are there.
pub record CdpCookieParam : Type 0 where
  pub name : Text
  pub value : Text
  pub url : Url
  pub domain : Option Text
  pub path : Option Text
  pub secure : Option Bool
  pub http_only : Option Bool
  pub same_site : Option Text
  pub expires : Option ℤ
  pub partition_key : Option (Text × Bool)

-- A number of the JSON reply: whether it is above zero, and `as i64`.
pub record CdpNumber : Type 0 where
  pub is_positive : Bool
  pub as_i64 : ℤ

-- A cookie of `Network.getCookies`: the members that have the type that is asked for.
pub record CdpCookie : Type 0 where
  pub name : Option Text
  pub value : Option Text
  pub domain : Option Text
  pub path : Option Text
  pub secure : Option Bool
  pub http_only : Option Bool
  pub same_site : Option Text
  pub expires : Option CdpNumber

unfoldable pub cookie_top_level_site : Url → Text
cookie_top_level_site url = url.scheme ++ (codes "://" ++ host_or_empty url.host)

abbrev pub secure_param : Option Bool → Bool → Option Bool
secure_param none effective = if effective then some true else none
secure_param (some _) effective = some effective

unfoldable pub cdp_cookie_param : PreparedCookie → Url → CdpCookieParam
unfolding effective_cookie_secure cookie_top_level_site
cdp_cookie_param c url = record {
  name = c.name;
  value = c.value;
  url = url;
  domain = c.domain;
  path = c.path;
  secure = secure_param c.secure (effective_cookie_secure c);
  http_only = c.http_only;
  same_site = site_name c.same_site;
  expires = c.expires_epoch_s;
  partition_key =
      if is_some_true c.partitioned then some (cookie_top_level_site url, false) else none;
}

-- The loop of `apply_request_options` over the cookies.
unfoldable pub cookie_params : ℤ → Url → List PreparedCookie → Result (List CdpCookieParam)
unfolding cdp_cookie_param validate_cookie_scope cookie_is_expired effective_cookie_secure
cookie_params now url [] = ok []
cookie_params now url (c ∷ cs) = do
  validate_cookie_scope c url
  others ← cookie_params now url cs
  ok (
      if effective_cookie_secure c && not (text_eq url.scheme (codes "https"))
      then others
      else if cookie_is_expired now c
      then others
      else cdp_cookie_param c url ∷ others)

-- A domain that begins with a dot, without it; a bare host is left out.
abbrev pub set_cookie_domain : Option Text → Option Text
set_cookie_domain (some (c ∷ d)) = if c == b'.' then some d else none
set_cookie_domain _ = none

abbrev pub set_cookie_path : Option Text → Option Text
set_cookie_path (some (c ∷ p)) = some (c ∷ p)
set_cookie_path _ = none

abbrev pub set_cookie_flag : Option Bool → Option Bool
set_cookie_flag (some true) = some true
set_cookie_flag _ = none

abbrev pub set_cookie_expires : (ℤ → Bool) → Option CdpNumber → Option Expiration
set_cookie_expires in_range none = none
set_cookie_expires in_range (some n) =
    if n.is_positive && in_range n.as_i64 then some (date_time n.as_i64) else none

-- `in_range` says which timestamps `OffsetDateTime` can represent; the `cookie` crate's accessor of the
-- domain leaves out a leading dot.
unfoldable pub cdp_cookie_to_set_cookie : (ℤ → Bool) → CdpCookie → Option Cookie
cdp_cookie_to_set_cookie in_range entry = elim entry.name [
  | none ↦ none
  | some name ↦ elim entry.value [
    | none ↦ none
    | some value ↦ some (record {
      name = name;
      value = value;
      domain = set_cookie_domain entry.domain;
      path = set_cookie_path entry.path;
      max_age = none;
      expires = set_cookie_expires in_range entry.expires;
      secure = set_cookie_flag entry.secure;
      http_only = set_cookie_flag entry.http_only;
      same_site = site_of entry.same_site;
    })
  ]
]

abbrev pub is_unchanged : Option CookieJar → Cookie → Url → ℤ → Bool
is_unchanged none c url now = false
is_unchanged (some snapshot) c url now = holds_unchanged snapshot c url now

-- One round of the loop of `merge_browser_cookies`: the jar, and whether the cookie was rejected.
unfoldable pub merge_browser_cookie :
    HostNames → Option CookieJar → Url → ℤ → Option Cookie → CookieJar → CookieJar × Bool
merge_browser_cookie names injected url now none jar = (jar, false)
merge_browser_cookie names injected url now (some c) jar =
    if is_unchanged injected c url now
    then (jar, false)
    else (let (accepted, merged) = merge names c url now jar in (merged, not accepted))

unfoldable pub merge_browser_cookies :
    HostNames → (ℤ → Bool) → Option CookieJar → Url → ℤ → List CdpCookie → CookieJar → CookieJar × ℕ
unfolding cdp_cookie_to_set_cookie merge_browser_cookie
merge_browser_cookies names in_range injected url now [] jar = (jar, 0)
merge_browser_cookies names in_range injected url now (entry ∷ rest) jar =
    let (merged, rejected) =
      merge_browser_cookie names injected url now (cdp_cookie_to_set_cookie in_range entry) jar in
    let (end, count) = merge_browser_cookies names in_range injected url now rest merged in
    (end, if rejected then suc count else count)
