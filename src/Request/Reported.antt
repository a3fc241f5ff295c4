-- ===== src/Request/Reported.antt =====
-- One cookie of the jar, from its entry through the browser and back.
use agent_first_http.Prelude.{
  Text, ◌≡◌, refl, sym, ap, ◌∙◌, Bool, true, false, not, ◌&&◌, ◌||◌, Option, none, some, [], ◌∷◌,
  if◌then◌else◌, ℤ, text_eq_refl, eq_ignore_ascii_case_refl, eq_ℤ_iff, starts_with_char,
  trim_start_char, trim_start_char_idem, to_ascii_lowercase, to_ascii_lowercase_idem,
}
use agent_first_http.Errors.{Result, ok, err, ◌>>◌, new, invalid_argument}
use agent_first_http.Cookies.Scope.{Url, normal_host}
use agent_first_http.Cookies.Entry.{
  JarEntry, Cookie, same_content, from_set_cookie, to_cookie, entry_domain, entry_path, is_none,
  sent_expiry, same_expiry, same_flag, flag, or_false, site_of, entry_expiry,
}
use agent_first_http.Cookies.Jar.{host_or_empty}
use agent_first_http.Cookies.Isolation.{normal_host-ignores_case}
use agent_first_http.Request.Values.{
  PreparedCookie, Wiring, prepare_cookie, is_same_site_none, effective_cookie_secure, date_of,
  lower_domain, validate_cookie_pair, cookie_expires_epoch_s, is_some_true,
}
use agent_first_http.Request.BrowserCookies.{
  CdpCookie, secure_param, cdp_cookie_param, set_cookie_domain, set_cookie_path, set_cookie_flag,
  set_cookie_expires, cdp_cookie_to_set_cookie,
}
use agent_first_http.Request.Faithful.{
  dotted, reported_expiry, IsFaithful, HasOwnDomain, HasOwnPath, HasTime, IsReportable,
}

pub same_expiry_refl : (t : Option ℤ) → same_expiry t t ≡ true
same_expiry_refl none = refl
same_expiry_refl (some t) = (eq_ℤ_iff t t).1 refl

pub same_flag_refl : (b : Bool) → same_flag b b ≡ true
same_flag_refl true = refl
same_flag_refl false = refl

-- The domain of an entry after the way through the browser.
abbrev pub domain_back : Bool → Option Text → Option Text → Option Text
domain_back host_only d host =
    set_cookie_domain (some (dotted (lower_domain (if host_only then none else d)) host))

pub bare_host :
    (host : Text) → starts_with_char host b'.' ≡ false → set_cookie_domain (some host) ≡ none
bare_host [] h = refl
bare_host (c ∷ s) h = rw h refl

pub normal_host-back :
    (d : Text) → normal_host (trim_start_char b'.' (to_ascii_lowercase d)) ≡ normal_host d
unfolding normal_host
normal_host-back d =
    rw trim_start_char_idem
      (normal_host-ignores_case (to_ascii_lowercase d) d (to_ascii_lowercase_idem d))

module _ (host : Option Text) (bare : starts_with_char (host_or_empty host) b'.' ≡ false) where
  domain_back_lem :
      (host_only : Bool) (d : Option Text)
      → HasOwnDomain host_only d host
      → (entry_domain (domain_back host_only d host) host ≡ d)
        × (is_none (domain_back host_only d host) ≡ host_only)
  domain_back_lem true d own = rw (bare_host (host_or_empty host) bare) (sym own, refl)
  domain_back_lem false none own = elim own [ ]
  domain_back_lem false (some d) own = (ap (λ (x : Text). some x) (normal_host-back d ∙ own), refl)

pub path_back : (p : Option Text) (url : Url) → HasOwnPath p → entry_path p url ≡ p
path_back none url h = elim h [ ]
path_back (some p) url h = rw h refl

pub set_cookie_path_lem :
    (p : Text) → starts_with_char p b'/' ≡ true → set_cookie_path (some p) ≡ some p
set_cookie_path_lem [] h = cc
set_cookie_path_lem (c ∷ p) h = refl

pub expiry_back :
    (in_range : ℤ → Bool) (t : Option ℤ) (now : ℤ)
    → HasTime in_range t
    → entry_expiry none
        (set_cookie_expires in_range (some (reported_expiry (date_of (sent_expiry in_range t)))))
        now
      ≡ t
expiry_back in_range none now h = refl
expiry_back in_range (some t) now h = rw (h.0, h.1, h.0) refl

pub secure_back :
    (b none_site : Bool)
    → (none_site && not b) ≡ false
    → or_false (
        set_cookie_flag
          (some (or_false (secure_param (flag b) (is_some_true (flag b) || (none_site || false))))))
      ≡ b
secure_back true n h = refl
secure_back false true h = cc
secure_back false false h = refl

pub flag_back : (b : Bool) → or_false (set_cookie_flag (some (or_false (flag b)))) ≡ b
flag_back true = refl
flag_back false = refl

pub has_own_path :
    (o : Option Text) → HasOwnPath o → (p : Text) × (o ≡ some p) × (starts_with_char p b'/' ≡ true)
has_own_path none h = elim h [ ]
has_own_path (some p) h = (p, refl, h)

-- The cookie that is prepared from one of the jar.
abbrev pub prepared_from : Wiring → ℤ → Cookie → PreparedCookie
prepared_from w now c = record {
  name = c.name;
  value = c.value;
  domain = lower_domain c.domain;
  path = c.path;
  secure = c.secure;
  http_only = c.http_only;
  same_site = c.same_site;
  partitioned = none;
  expires_epoch_s = cookie_expires_epoch_s w now c;
}

pub prepare_cookie_lem :
    (w : Wiring) (now : ℤ) (c : Cookie) (p : PreparedCookie)
    → prepare_cookie w now none c ≡ ok p
    → p ≡ prepared_from w now c
unfolding prepare_cookie
prepare_cookie_lem w now c p h = only (validate_cookie_pair c.name c.value) _ _ h
  where
    only :
        (v : Result (Unit {0})) (b : Bool) (x : PreparedCookie)
        → (v >> (if b then err (new invalid_argument) else ok x)) ≡ ok p
        → p ≡ x
    only (err e) b x h' = cc
    only (ok _) true x h' = cc
    only (ok _) false x h' = cc

module _ (in_range : ℤ → Bool) (url : Url)
    (bare : starts_with_char (host_or_empty url.host) b'.' ≡ false) where
  -- The cookie that an entry comes back as.
  abbrev pub back : JarEntry → Option Text → Cookie
  back e site = record {
    name = e.name;
    value = e.value;
    domain = domain_back e.host_only e.domain url.host;
    path = e.path;
    max_age = none;
    expires =
        set_cookie_expires in_range
          (some (reported_expiry (date_of (sent_expiry in_range e.expires_epoch_s))));
    secure = set_cookie_flag (
        some (
          or_false (
            secure_param (flag e.secure) (
              is_some_true (flag e.secure)
              || (is_same_site_none (site_of e.same_site) || false)))));
    http_only = set_cookie_flag (some (or_false (flag e.http_only)));
    same_site = site_of site;
  }

  pub back-same :
      (e : JarEntry) (site : Option Text) (later : ℤ)
      → IsReportable in_range url e
      → same_content e (from_set_cookie (back e site) url later) ≡ true
  unfolding from_set_cookie same_content
  back-same e site later r =
      let (domain, host_only) = domain_back_lem url.host bare e.host_only e.domain r.domain in
      rw
        (
          domain,
          host_only,
          path_back e.path url r.path,
          expiry_back in_range e.expires_epoch_s later r.expiry,
          secure_back e.secure (is_same_site_none (site_of e.same_site)) r.same_site,
          flag_back e.http_only,
        )
        (simp (text_eq_refl, eq_ignore_ascii_case_refl, same_flag_refl, same_expiry_refl))

  pub cdp_cookie_to_set_cookie-back :
      (w : Wiring) (now : ℤ) (e : JarEntry) (report : CdpCookie)
      → IsFaithful (cdp_cookie_param (prepared_from w now (to_cookie in_range e)) url) report
      → HasOwnPath e.path
      → cdp_cookie_to_set_cookie in_range report ≡ some (back e report.same_site)
  unfolding cdp_cookie_to_set_cookie cdp_cookie_param to_cookie cookie_expires_epoch_s
      effective_cookie_secure
  cdp_cookie_to_set_cookie-back w now e report f own =
      let (p, found, rooted) = has_own_path e.path own in
      rw
        (
          f.name,
          f.value,
          f.domain,
          f.path p found,
          f.secure,
          f.http_only,
          f.expires,
          set_cookie_path_lem p rooted,
          found,
        )
        refl
