-- ===== src/Cookies/Isolation.antt =====
-- A response can change only what is sent within the domain that its cookie is stored for, and the
-- responding host is itself within that domain.
use agent_first_http.Prelude.{
  Text, ◌≡◌, ◌≢◌, refl, sym, ◌⊎◌, true, false, none, some, arith, ℤ, text_eq_refl, contains_char,
  trim_start_char, to_ascii_lowercase, to_ascii_lowercase_idem, trim_start_char_idem,
  trim_start_char-to_ascii_lowercase,
}
use agent_first_http.Cookies.Scope.{Url, HostNames, normal_host, within}
use agent_first_http.Cookies.Entry.{JarEntry, Cookie, or_empty}
use agent_first_http.Cookies.Jar.{CookieJar, host_or_empty, applies, applicable_entries}

normal_host_lem : (s : Text) → normal_host s ≡ trim_start_char b'.' (to_ascii_lowercase s)
unfolding normal_host
normal_host_lem s = sym (trim_start_char-to_ascii_lowercase b'.' s refl)

-- Hosts that differ in case alone are one host.
pub normal_host-ignores_case :
    (s t : Text) → to_ascii_lowercase s ≡ to_ascii_lowercase t → normal_host s ≡ normal_host t
normal_host-ignores_case s t h = rw (normal_host_lem, normal_host_lem, h)

pub normal_host_idem : (s : Text) → normal_host (normal_host s) ≡ normal_host s
unfolding normal_host
normal_host_idem s =
    rw (trim_start_char-to_ascii_lowercase b'.' (trim_start_char b'.' s) refl)
      (rw (trim_start_char_idem b'.' s, to_ascii_lowercase_idem (trim_start_char b'.' s)))

-- The domain that an entry is stored for.
abbrev pub domain_of : JarEntry → Text
domain_of e = normal_host (or_empty e.domain)

abbrev pub host_of : Url → Text
host_of url = normal_host (host_or_empty url.host)

-- An accepted cookie is for the responding host alone, or for a domain around it that no public
-- suffix list has as a suffix.
abbrev pub IsOwnDomain : HostNames → Text → Text → Type 0
IsOwnDomain names d host =
    (within d host ≡ true)
    × ((d ≡ host) ⊎ ((contains_char d b'.' ≡ true) × (names.suffix_str d ≢ some d)))

pub within_self : (d : Text) → within d d ≡ true
unfolding within
within_self d = ground (arith, text_eq_refl d)

-- The domain that a response asks for: its own host, if it names none.
abbrev pub asked_domain : Cookie → Url → Text
asked_domain c url = elim c.domain [ none ↦ host_of url | some d ↦ normal_host d ]

-- What an accepted cookie can change: it is stored for the domain that the response asked for, which
-- is the responding host's own; requests to a host that is not within it are sent what they were; and
-- a cookie with no domain is sent to the responding host and to no other.
pub record IsConfined (names : HostNames) (c : Cookie) (url : Url) (e : JarEntry)
    (before after : CookieJar) : Type 0 where
  pub asked : domain_of e ≡ asked_domain c url
  pub own : IsOwnDomain names (domain_of e) (host_of url)
  pub elsewhere :
      (other : Url) (later : ℤ)
      → within (domain_of e) (host_of other) ≡ false
      → applicable_entries after other later ≡ applicable_entries before other later
  pub host_only :
      (other : Url) → c.domain ≡ none → applies e other ≡ true → host_of other ≡ host_of url
