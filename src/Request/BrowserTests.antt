-- ===== src/Request/BrowserTests.antt =====
-- Cookies that go to the browser and come back, at concrete inputs.
use agent_first_http.Prelude.{
  ◌≡◌, refl, codes, true, false, none, some, [], ◌∷◌, ℤ, pos, text_eq, keep, rposition,
  to_ascii_lowercase, trim_start_char, any, ends_with, Bool, saturating_add, strip_prefix,
  ends_with_char, length, eq_ignore_ascii_case, position,
}
use agent_first_http.Errors.{ok}
use agent_first_http.Cookies.Scope.{
  Url, HostNames, default_path, normal_host, within, may_set_domain,
}
use agent_first_http.Cookies.Entry.{
  Cookie, none_, from_set_cookie, to_cookie, is_expired, same_content,
}
use agent_first_http.Cookies.Jar.{
  CookieJar, applies, applicable_entries, applicable_cookies, holds_unchanged, merge, put_entry,
}
use agent_first_http.Request.Values.{Wiring, prepare_cookie, validate_cookie_pair, in_cookie_scope}
use agent_first_http.Request.Redirects.{sendable}
use agent_first_http.Request.BrowserCookies.{
  CdpCookieParam, CdpCookie, cookie_params, merge_browser_cookies,
}
use agent_first_http.Request.Faithful.{reported_domain, reported_expiry}
use agent_first_http.Cookies.Entry.{or_false}

abbrev site : Url
site = record { scheme = codes "https"; host = some (codes "www.a.test"); path = codes "/x/y" }

abbrev sid : Cookie
sid = record {
  name = codes "sid";
  value = codes "old";
  domain = some (codes "A.test");
  path = none;
  max_age = some (pos 60);
  expires = none;
  secure = some true;
  http_only = none;
  same_site = none;
}

-- A host-only session cookie.
abbrev pref : Cookie
pref = record sid { name = codes "pref"; domain = none; max_age = none; secure = none }

-- A cookie for all sites, without `Secure`.
abbrev everywhere : Cookie
everywhere = record pref { same_site = some none_ }

abbrev injected : CookieJar
injected = record {
  entries = from_set_cookie sid site (pos 1000) ∷ from_set_cookie pref site (pos 1000) ∷ [];
  updated = [];
}

-- Another fetch has changed the value in the meantime.
abbrev disk : CookieJar
disk = record {
  entries = from_set_cookie (record sid { value = codes "new" }) site (pos 1005) ∷ [];
  updated = [];
}

abbrev names : HostNames
names = record { is_ip_address = λ h. false; suffix_str = λ d. none }

abbrev wiring : Wiring
wiring = record {
  is_header_value = λ v. true;
  is_method = λ m. true;
  header_name = λ n. some n;
  checked_add = λ now s. some now;
  to_uppercase = λ m. m;
}

abbrev browser : CdpCookieParam → CdpCookie
browser q = record {
  name = some q.name;
  value = some q.value;
  domain = some (reported_domain q);
  path = q.path;
  secure = some (or_false q.secure);
  http_only = some (or_false q.http_only);
  same_site = q.same_site;
  expires = some (reported_expiry q.expires);
}

abbrev in_range : ℤ → Bool
in_range t = true

-- What the browser is given of the two.
abbrev given_sid : CdpCookieParam
given_sid = record {
  name = codes "sid";
  value = codes "old";
  url = site;
  domain = some (codes "a.test");
  path = some (codes "/x");
  secure = some true;
  http_only = none;
  same_site = none;
  expires = some (pos 1060);
  partition_key = none;
}

abbrev given_pref : CdpCookieParam
given_pref = record given_sid { name = codes "pref"; domain = none; secure = none; expires = none }

-- A cookie that is `SameSite=None` without `Secure` is given to the browser as secure, and what comes
-- back counts as changed.
everywhere_changed :
    let e = from_set_cookie everywhere site (pos 1000) in
    let jar : CookieJar = record { entries = e ∷ []; updated = [] } in
    let given = record given_pref { same_site = some (codes "None"); secure = some true } in
    (cookie_params
        (pos 1010)
        site
        (sendable wiring (pos 1010) (applicable_cookies in_range jar site (pos 1010)))
      ≡ ok (given ∷ []))
    × (let merged =
          (merge_browser_cookies names in_range
            (some jar)
            site
            (pos 1020)
            (browser given ∷ [])
            disk).0 in
        length merged.entries ≡ 2)
unfolding cookie_params sendable applicable_cookies applicable_entries applies is_expired
    prepare_cookie validate_cookie_pair in_cookie_scope from_set_cookie to_cookie default_path
    normal_host within to_ascii_lowercase trim_start_char text_eq rposition keep any ends_with
    saturating_add strip_prefix ends_with_char merge_browser_cookies holds_unchanged merge put_entry
    may_set_domain same_content eq_ignore_ascii_case position
everywhere_changed = (refl, refl)
