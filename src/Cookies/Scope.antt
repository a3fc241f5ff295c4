-- ===== src/Cookies/Scope.antt =====
-- sdk/profile/cookie_jar.rs: which hosts and paths a cookie is for, and which domains a response may
-- name (`domain_matches`, `path_matches`, `may_set_domain`, `default_path`).
use agent_first_http.Prelude.{
  ℕ, Text, Bool, true, false, not, ◌||◌, Option, none, some, ◌∷◌, [], ◌==◌, if◌then◌else◌, text_eq,
  strip_prefix, ends_with, ends_with_char, starts_with_char, contains_char, trim_start_char,
  to_ascii_lowercase, rposition, take,
}

-- What the `url` crate's accessors return for a parsed URL.
pub record Url : Type 0 where
  pub scheme : Text
  pub host : Option Text
  pub path : Text

-- What the standard library and the public-suffix list say of a host name.
pub record HostNames : Type 0 where
  pub is_ip_address : Text → Bool
  pub suffix_str : Text → Option Text

-- `.trim_start_matches('.').to_ascii_lowercase()`
unfoldable pub normal_host : Text → Text
normal_host s = to_ascii_lowercase (trim_start_char b'.' s)

-- `host == d || host.ends_with(&format!(".{d}"))`
unfoldable pub within : Text → Text → Bool
within d host = text_eq host d || ends_with host (b'.' ∷ d)

unfoldable pub domain_matches : Option Text → Bool → Text → Bool
unfolding normal_host within
domain_matches none host_only host = false
domain_matches (some d) host_only host =
    if host_only
    then text_eq (normal_host host) (normal_host d)
    else within (normal_host d) (normal_host host)

abbrev pub or_root : Option Text → Text
or_root none = b'/' ∷ []
or_root (some p) = p

-- What is left of the request path after the cookie's path, if it begins with it.
abbrev pub below_path : Text → Option Text → Bool
below_path cp none = false
below_path cp (some rest) = ends_with_char cp b'/' || starts_with_char rest b'/'

unfoldable pub path_matches : Option Text → Text → Bool
path_matches cookie_path request_path =
    let cp = or_root cookie_path in
    if text_eq cp request_path then true else below_path cp (strip_prefix cp request_path)

abbrev pub is_suffix : Option Text → Text → Bool
is_suffix none d = false
is_suffix (some s) d = text_eq s d

unfoldable pub may_set_domain : HostNames → Option Text → Text → Bool
unfolding normal_host within
may_set_domain names none host = true
may_set_domain names (some cookie_domain) host =
    let d = normal_host cookie_domain in
    let h = normal_host host in
    if text_eq d [] || ends_with_char d b'.'
    then false
    else if names.is_ip_address h
    then false
    else if not (contains_char d b'.') || is_suffix (names.suffix_str d) d
    then false
    else within d h

-- The path up to its last slash, where the slash is not its first character.
abbrev pub up_to_slash : Text → Option ℕ → Text
up_to_slash path none = b'/' ∷ []
up_to_slash path (some idx) = if idx == 0 then b'/' ∷ [] else take idx path

unfoldable pub default_path : Url → Text
default_path url =
    if not (starts_with_char url.path b'/')
    then b'/' ∷ []
    else up_to_slash url.path (rposition (λ c. c == b'/') url.path)
