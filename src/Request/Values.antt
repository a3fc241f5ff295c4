-- ===== src/Request/Values.antt =====
-- sdk/fetch/pipeline/request_opts.rs: the cookies that a caller or the jar adds to a request, and the
-- checks on them.
use agent_first_http.Prelude.{
  ℕ, Text, Bool, true, false, ◌&&◌, ◌||◌, Option, none, some, [], ◌∷◌, leb, ◌==◌, if◌then◌else◌,
  text_eq, ends_with, any, to_ascii_lowercase, ℤ,
}
use agent_first_http.Errors.{new, invalid_argument, Result, ok, err, ◌>>◌}
use agent_first_http.Cookies.Scope.{Url, path_matches}
use agent_first_http.Cookies.Entry.{Cookie, SameSite, none_, Expiration, date_time, due}
use agent_first_http.Pages.Classification.{is_whitespace, trim_start}

pub record PreparedCookie : Type 0 where
  pub name : Text
  pub value : Text
  pub domain : Option Text
  pub path : Option Text
  pub secure : Option Bool
  pub http_only : Option Bool
  pub same_site : Option SameSite
  pub partitioned : Option Bool
  pub expires_epoch_s : Option ℤ

-- What the code asks of the crates it uses: whether a text is a header value or a method; the header
-- name that a text stands for, in lower case; the time some seconds after another, if the `cookie`
-- crate can represent it; and `str::to_uppercase`.
pub record Wiring : Type 0 where
  pub is_header_value : Text → Bool
  pub is_method : Text → Bool
  pub header_name : Text → Option Text
  pub checked_add : ℤ → ℤ → Option ℤ
  pub to_uppercase : Text → Text

-- `s.trim()`
unfoldable pub trim_end : Text → Text
unfolding is_whitespace
trim_end [] = []
trim_end (c ∷ s) = elim (trim_end s) [
  | [] ↦ if is_whitespace c then [] else c ∷ []
  | d ∷ r ↦ c ∷ d ∷ r
]

abbrev pub is_empty : Text → Bool
is_empty [] = true
is_empty (c ∷ s) = false

-- A byte that a cookie's name may not have: `;`, `=`, a control character or a blank.
unfoldable pub bad_in_name : ℕ → Bool
bad_in_name c = c == b';' || (c == b'=' || (leb c 32 || c == 127))

unfoldable pub bad_in_value : ℕ → Bool
bad_in_value c = c == b';' || (c == 13 || c == 10)

unfoldable pub validate_cookie_pair : Text → Text → Result (Unit {0})
unfolding bad_in_name bad_in_value trim_end trim_start
validate_cookie_pair name value =
    let trimmed = trim_end (trim_start name) in
    if is_empty trimmed
    then err (new invalid_argument)
    else if any bad_in_name trimmed
    then err (new invalid_argument)
    else if any bad_in_value value
    then err (new invalid_argument)
    else ok tt

abbrev pub is_some_true : Option Bool → Bool
is_some_true (some true) = true
is_some_true _ = false

abbrev pub is_some_false : Option Bool → Bool
is_some_false (some false) = true
is_some_false _ = false

abbrev pub is_same_site_none : Option SameSite → Bool
is_same_site_none (some none_) = true
is_same_site_none _ = false

abbrev pub date_of : Option Expiration → Option ℤ
date_of (some (date_time t)) = some t
date_of _ = none

unfoldable pub cookie_expires_epoch_s : Wiring → ℤ → Cookie → Option ℤ
cookie_expires_epoch_s w now c = elim c.max_age [
  | some max_age ↦ w.checked_add now max_age
  | none ↦ date_of c.expires
]

abbrev pub lower_domain : Option Text → Option Text
lower_domain none = none
lower_domain (some d) = some (to_ascii_lowercase d)

-- `partitioned` is the attribute of the cookie, which a jar's cookie never has.
unfoldable pub prepare_cookie : Wiring → ℤ → Option Bool → Cookie → Result PreparedCookie
unfolding validate_cookie_pair cookie_expires_epoch_s
prepare_cookie w now partitioned c =
    validate_cookie_pair c.name c.value
    >> (if is_some_true partitioned && is_some_false c.secure
        then err (new invalid_argument)
        else if is_same_site_none c.same_site && is_some_false c.secure
        then err (new invalid_argument)
        else ok (record {
          name = c.name;
          value = c.value;
          domain = lower_domain c.domain;
          path = c.path;
          secure = c.secure;
          http_only = c.http_only;
          same_site = c.same_site;
          partitioned = partitioned;
          expires_epoch_s = cookie_expires_epoch_s w now c;
        }))

unfoldable pub cookie_is_expired : ℤ → PreparedCookie → Bool
cookie_is_expired now c = due c.expires_epoch_s now

unfoldable pub effective_cookie_secure : PreparedCookie → Bool
effective_cookie_secure c =
    is_some_true c.secure || (is_same_site_none c.same_site || is_some_true c.partitioned)

-- The test of `Domain` against the host.
abbrev pub domain_fits : Option Text → Option Text → Bool
domain_fits none host = true
domain_fits (some domain) none = false
domain_fits (some domain) (some host) =
    text_eq (to_ascii_lowercase host) domain || ends_with (to_ascii_lowercase host) (b'.' ∷ domain)

abbrev pub path_fits : Option Text → Text → Bool
path_fits none path = true
path_fits (some p) path = path_matches (some p) path

-- `validate_cookie_scope(..).is_ok()`; every refusal is an `invalid_argument`.
unfoldable pub in_cookie_scope : PreparedCookie → Url → Bool
in_cookie_scope c url = domain_fits c.domain url.host && path_fits c.path url.path

unfoldable pub validate_cookie_scope : PreparedCookie → Url → Result (Unit {0})
unfolding in_cookie_scope
validate_cookie_scope c url = if in_cookie_scope c url then ok tt else err (new invalid_argument)
