-- ===== src/Cookies/Tests.antt =====
-- The cookie jar at concrete inputs.
use agent_first_http.Prelude.{
  ◌≡◌, ◌↔◌, refl, ◌⊎◌, Text, codes, true, false, not, ◌&&◌, none, some, [], ◌∷◌, if◌then◌else◌, ℤ,
  pos, All, text_eq, contains_char, trim_start_char, to_ascii_lowercase, ends_with, ends_with_char,
  rposition,
}
use agent_first_http.Cookies.Scope.{
  Url, HostNames, within, may_set_domain, default_path, normal_host,
}
use agent_first_http.Cookies.Entry.{JarEntry, Cookie, same_identity, from_set_cookie, is_expired}
use agent_first_http.Cookies.Jar.{
  CookieJar, applies, merge, merge_response, persist_entries, host_or_empty,
}
use agent_first_http.Cookies.Identity.{IsUnique, stored}
use agent_first_http.Cookies.Merging.{merge_lem}
use agent_first_http.Cookies.Plaintext.{secure_entries, merge_response-secure_kept}
use agent_first_http.Cookies.Persisting.{persist_entries_lem, last_update, live, or_else}
use agent_first_http.Cookies.Matching.{IsHostMatch, IsPathMatch, applies_iff}
use agent_first_http.Cookies.OwnUrl.{applies-merge_own}
use agent_first_http.Cookies.Scope.{or_root}

abbrev names : HostNames
names = record {
  is_ip_address = λ h. text_eq h (codes "127.0.0.1");
  suffix_str = λ d. if text_eq d (codes "github.io") then some d else some (codes "com");
}

abbrev shop : Url
shop = record {
  scheme = codes "https";
  host = some (codes "www.shop.com");
  path = codes "/cart/view";
}

abbrev shop_plain : Url
shop_plain = record shop { scheme = codes "http" }

abbrev bank : Url
bank = record { scheme = codes "https"; host = some (codes "bank.com"); path = codes "/" }

abbrev sid : Cookie
sid = record {
  name = codes "sid";
  value = codes "1";
  domain = none;
  path = none;
  max_age = some (pos 60);
  expires = none;
  secure = none;
  http_only = none;
  same_site = none;
}

abbrev for_domain : Text → Cookie
for_domain d = record sid { domain = some d }

abbrev empty : CookieJar
empty = record { entries = []; updated = [] }

abbrev now : ℤ
now = pos 1000

abbrev held : CookieJar
held = record {
  entries = from_set_cookie (record sid { secure = some true }) shop now ∷ [];
  updated = [];
}

-- `Domain` may widen a cookie to the parent, and to nothing else.
domains_tried :
    (may_set_domain names (some (codes ".Shop.com")) (codes "www.shop.com") ≡ true)
    × (may_set_domain names (some (codes "bank.com")) (codes "www.shop.com") ≡ false)
    × (may_set_domain names (some (codes "github.io")) (codes "alice.github.io") ≡ false)
    × (may_set_domain names (some (codes "com.")) (codes "example.com.") ≡ false)
    × (may_set_domain names none (codes "alice.github.io") ≡ true)
unfolding may_set_domain normal_host within trim_start_char to_ascii_lowercase text_eq ends_with
    ends_with_char contains_char
domains_tried = (refl, refl, refl, refl, refl)

default_path_tried : default_path shop ≡ codes "/cart"
unfolding default_path rposition
default_path_tried = refl

sid_accepted : (merge names sid shop now empty).0 ≡ true
unfolding merge may_set_domain
sid_accepted = refl

merge_response-secure_kept_example :
    secure_entries (merge_response names sid shop_plain now held).1 ≡ secure_entries held
unfolding text_eq
merge_response-secure_kept_example = merge_response-secure_kept names sid shop_plain now held refl

merge_lem_example :
    let result = merge names sid shop now empty in
    let e = from_set_cookie sid shop now in
    IsUnique result.1.entries
    × ((k : JarEntry)
        → stored k result.1.entries
          ≡ (if result.0 && same_identity e k then some e else stored k []))
merge_lem_example = merge_lem names sid shop now empty tt

abbrev changed : CookieJar
changed = record { entries = from_set_cookie sid shop now ∷ []; updated = 0 ∷ [] }

persist_entries_lem_example :
    let written = persist_entries now changed held.entries in
    IsUnique written
    × All (λ e. not (is_expired e now) ≡ true) written
    × ((k : JarEntry)
        → stored k written
          ≡ live now
              (or_else (last_update changed.updated 0 changed.entries k) (stored k held.entries)))
persist_entries_lem_example = persist_entries_lem now changed held.entries (tt, tt)

abbrev sid_entry : JarEntry
sid_entry = from_set_cookie sid shop now

applies_iff_example : (applies sid_entry shop ≡ true) ↔ (
    ((sid_entry.secure ≡ false) ⊎ (shop.scheme ≡ codes "https"))
    × IsHostMatch sid_entry.domain sid_entry.host_only (host_or_empty shop.host)
    × IsPathMatch (or_root sid_entry.path) shop.path)
applies_iff_example = applies_iff sid_entry shop

applies-merge_own_example : applies (from_set_cookie sid shop now) shop ≡ true
unfolding from_set_cookie
applies-merge_own_example = applies-merge_own names sid shop now empty sid_accepted refl refl refl
