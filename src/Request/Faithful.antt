-- ===== src/Request/Faithful.antt =====
-- What is asked of a browser that reports cookies, and of a jar's entries that come back whole.
use agent_first_http.Prelude.{
  ℕ, zero, suc, Text, ◌≡◌, refl, ap, ◌∙◌, Bool, true, false, not, ◌&&◌, Option, none, some, [], ◌∷◌,
  arith, if◌then◌else◌, Bool-cases, ℤ, negsuc, is_positive, text_eq, starts_with_char,
  trim_start_char, ◌==◌, inl, inr, rposition,
}
use agent_first_http.Cookies.Scope.{Url, normal_host, default_path, up_to_slash}
use agent_first_http.Cookies.Entry.{
  JarEntry, Cookie, from_set_cookie, entry_domain, entry_path, is_none, or_false, site_of, SameSite,
  site_name, strict, lax, none_,
}
use agent_first_http.Cookies.Jar.{host_or_empty}
use agent_first_http.Cookies.Isolation.{normal_host_idem}
use agent_first_http.Request.Values.{is_same_site_none}
use agent_first_http.Request.BrowserCookies.{CdpCookieParam, CdpNumber, CdpCookie}

-- A cookie that was set for a domain is reported with one leading dot, and one that was not with the
-- bare host; a session cookie with -1.
abbrev pub dotted : Option Text → Option Text → Text
dotted none host = host_or_empty host
dotted (some d) host = b'.' ∷ trim_start_char b'.' d

abbrev pub reported_domain : CdpCookieParam → Text
reported_domain q = dotted q.domain q.url.host

abbrev pub reported_expiry : Option ℤ → CdpNumber
reported_expiry none = record { is_positive = false; as_i64 = negsuc 0 }
reported_expiry (some t) = record { is_positive = is_positive t; as_i64 = t }

-- What the browser reports of a cookie that it was given and that has not changed, as the DevTools
-- protocol documents it.
pub record IsFaithful (q : CdpCookieParam) (report : CdpCookie) : Type 0 where
  pub name : report.name ≡ some q.name
  pub value : report.value ≡ some q.value
  pub domain : report.domain ≡ some (reported_domain q)
  pub path : (p : Text) → q.path ≡ some p → report.path ≡ some p
  pub secure : report.secure ≡ some (or_false q.secure)
  pub http_only : report.http_only ≡ some (or_false q.http_only)
  pub expires : report.expires ≡ some (reported_expiry q.expires)

abbrev pub HasOwnDomain : Bool → Option Text → Option Text → Type 0
HasOwnDomain true d host = d ≡ host
HasOwnDomain false none host = ⊥
HasOwnDomain false (some d) host = normal_host d ≡ d

abbrev pub HasOwnPath : Option Text → Type 0
HasOwnPath none = ⊥
HasOwnPath (some p) = starts_with_char p b'/' ≡ true

abbrev pub HasTime : (ℤ → Bool) → Option ℤ → Type 0
HasTime in_range none = Unit
HasTime in_range (some t) = (in_range t ≡ true) × (is_positive t ≡ true)

-- An entry as a response from the URL leaves it, that comes back whole: its expiry is after the epoch
-- and one that the `cookie` crate can represent, and it is secure if it is `SameSite=None`.
pub record IsReportable (in_range : ℤ → Bool) (url : Url) (e : JarEntry) : Type 0 where
  pub domain : HasOwnDomain e.host_only e.domain url.host
  pub path : HasOwnPath e.path
  pub expiry : HasTime in_range e.expires_epoch_s
  pub same_site : (is_same_site_none (site_of e.same_site) && not e.secure) ≡ false

pub default_path_rooted : (url : Url) → starts_with_char (default_path url) b'/' ≡ true
unfolding default_path
default_path_rooted url = rooted url.path (rposition (λ c. c == b'/') url.path)
  where
    rooted :
        (path : Text) (i : Option ℕ)
        → starts_with_char
            (if not (starts_with_char path b'/') then b'/' ∷ [] else up_to_slash path i)
            b'/'
          ≡ true
    rooted [] i = refl
    rooted (x ∷ xs) none = ground arith
    rooted (x ∷ xs) (some zero) = ground arith
    rooted (x ∷ xs) (some (suc i)) = ground arith

-- A response leaves such entries.
pub from_set_cookie-IsReportable :
    (in_range : ℤ → Bool) (c : Cookie) (url : Url) (now : ℤ)
    → HasTime in_range (from_set_cookie c url now).expires_epoch_s
    → (is_same_site_none c.same_site && not (or_false c.secure)) ≡ false
    → IsReportable in_range url (from_set_cookie c url now)
unfolding from_set_cookie text_eq
from_set_cookie-IsReportable in_range c url now h s = record {
  domain = own_domain c.domain;
  path = own_path c.path;
  expiry = h;
  same_site =
      ap (λ b. is_same_site_none b && not (or_false c.secure)) (same_site_back c.same_site) ∙ s;
}
  where
    own_domain : (d : Option Text) → HasOwnDomain (is_none d) (entry_domain d url.host) url.host
    own_domain none = refl
    own_domain (some d) = normal_host_idem d

    own_path : (p : Option Text) → HasOwnPath (entry_path p url)
    own_path none = default_path_rooted url
    own_path (some p) = elim (Bool-cases (starts_with_char p b'/')) [
      | inl rooted ↦ rw rooted rooted
      | inr bare ↦ rw bare (default_path_rooted url)
    ]

    same_site_back : (site : Option SameSite) → site_of (site_name site) ≡ site
    same_site_back none = refl
    same_site_back (some strict) = refl
    same_site_back (some lax) = refl
    same_site_back (some none_) = refl
