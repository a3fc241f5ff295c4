-- ===== src/Cookies/Entry.antt =====
-- sdk/profile/cookie_jar.rs: a jar entry, the cookie that it is read from and written to, and the
-- comparisons of two entries (`JarEntry`).
use agent_first_http.Prelude.{
  Text, codes, Bool, true, false, not, ◌&&◌, Option, none, some, [], if◌then◌else◌, text_eq,
  starts_with_char, eq_ignore_ascii_case, ℤ, pos, leb_ℤ, eq_ℤ, is_positive, saturating_add,
}
use agent_first_http.Cookies.Scope.{Url, normal_host, or_root, default_path}

-- Timestamps are seconds since the epoch.
pub record JarEntry : Type 0 where
  pub name : Text
  pub value : Text
  pub domain : Option Text
  pub host_only : Bool
  pub path : Option Text
  pub expires_epoch_s : Option ℤ
  pub secure : Bool
  pub http_only : Bool
  pub same_site : Option Text

pub data SameSite : Type 0 where
  strict lax none_ : SameSite

pub data Expiration : Type 0 where
  date_time : ℤ → Expiration
  session : Expiration

-- What the `cookie` crate's accessors return for a cookie. `max_age` is in whole seconds.
pub record Cookie : Type 0 where
  pub name : Text
  pub value : Text
  pub domain : Option Text
  pub path : Option Text
  pub max_age : Option ℤ
  pub expires : Option Expiration
  pub secure : Option Bool
  pub http_only : Option Bool
  pub same_site : Option SameSite

abbrev pub or_empty : Option Text → Text
or_empty none = []
or_empty (some d) = d

unfoldable pub same_identity : JarEntry → JarEntry → Bool
same_identity e other =
    text_eq e.name other.name
    && (eq_ignore_ascii_case (or_empty e.domain) (or_empty other.domain)
        && text_eq (or_root e.path) (or_root other.path))

abbrev pub due : Option ℤ → ℤ → Bool
due none now = false
due (some t) now = leb_ℤ t now

unfoldable pub is_expired : JarEntry → ℤ → Bool
is_expired e now = due e.expires_epoch_s now

abbrev pub same_expiry : Option ℤ → Option ℤ → Bool
same_expiry none none = true
same_expiry (some a) (some b) = eq_ℤ a b
same_expiry _ _ = false

abbrev pub same_flag : Bool → Bool → Bool
same_flag true b = b
same_flag false b = not b

unfoldable pub same_content : JarEntry → JarEntry → Bool
unfolding same_identity
same_content e other =
    same_identity e other
    && (text_eq e.value other.value
        && (same_flag e.host_only other.host_only
            && (same_expiry e.expires_epoch_s other.expires_epoch_s
                && (same_flag e.secure other.secure && same_flag e.http_only other.http_only))))

abbrev pub entry_domain : Option Text → Option Text → Option Text
entry_domain (some d) host = some (normal_host d)
entry_domain none host = host

abbrev pub entry_path : Option Text → Url → Option Text
entry_path none url = some (default_path url)
entry_path (some p) url = if starts_with_char p b'/' then some p else some (default_path url)

abbrev pub entry_expiry : Option ℤ → Option Expiration → ℤ → Option ℤ
entry_expiry (some age) expires now =
    if is_positive age then some (saturating_add now age) else some (pos 0)
entry_expiry none none now = none
entry_expiry none (some (date_time t)) now = some t
entry_expiry none (some session) now = none

abbrev pub site_name : Option SameSite → Option Text
site_name none = none
site_name (some strict) = some (codes "Strict")
site_name (some lax) = some (codes "Lax")
site_name (some none_) = some (codes "None")

abbrev pub or_false : Option Bool → Bool
or_false none = false
or_false (some b) = b

abbrev pub is_none : Option Text → Bool
is_none none = true
is_none (some _) = false

-- `JarEntry::from_set_cookie`, with the time that `unix_now` returns
unfoldable pub from_set_cookie : Cookie → Url → ℤ → JarEntry
unfolding normal_host default_path
from_set_cookie c url now = record {
  name = c.name;
  value = c.value;
  domain = entry_domain c.domain url.host;
  host_only = is_none c.domain;
  path = entry_path c.path url;
  expires_epoch_s = entry_expiry c.max_age c.expires now;
  secure = or_false c.secure;
  http_only = or_false c.http_only;
  same_site = site_name c.same_site;
}

abbrev pub site_of : Option Text → Option SameSite
site_of none = none
site_of (some s) =
    if text_eq s (codes "Strict")
    then some strict
    else if text_eq s (codes "Lax")
    then some lax
    else if text_eq s (codes "None")
    then some none_
    else none

abbrev pub sent_expiry : (ℤ → Bool) → Option ℤ → Option Expiration
sent_expiry in_range none = none
sent_expiry in_range (some t) = if in_range t then some (date_time t) else none

abbrev pub flag : Bool → Option Bool
flag true = some true
flag false = none

-- `JarEntry::to_cookie`. `in_range` says which timestamps `OffsetDateTime` can represent.
unfoldable pub to_cookie : (ℤ → Bool) → JarEntry → Cookie
to_cookie in_range e = record {
  name = e.name;
  value = e.value;
  domain = if e.host_only then none else e.domain;
  path = e.path;
  max_age = none;
  expires = sent_expiry in_range e.expires_epoch_s;
  secure = flag e.secure;
  http_only = flag e.http_only;
  same_site = site_of e.same_site;
}
