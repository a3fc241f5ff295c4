-- ===== src/Cookies/Jar.antt =====
-- sdk/profile/cookie_jar.rs: the jar and its operations (`CookieJar`). Each operation that reads the
-- clock takes the time as an argument; the file system enters as the outcome of each call.
use agent_first_http.Prelude.{
  ℕ, suc, Text, codes, Bool, true, false, not, ◌&&◌, ◌||◌, Option, none, some, List, [], ◌∷◌, ◌++◌,
  map, ◌==◌, if◌then◌else◌, text_eq, ℤ, length, keep, any, position, set,
}
use agent_first_http.Errors.{io_error, Result, ok, err, new, ◌>>=◌, ◌>>◌}
use agent_first_http.Cookies.Scope.{Url, HostNames, domain_matches, path_matches, may_set_domain}
use agent_first_http.Cookies.Entry.{
  JarEntry, Cookie, same_identity, same_content, is_expired, from_set_cookie, to_cookie,
}

-- `path` is left out: the jar is at one path for its whole life.
pub record CookieJar : Type 0 where
  pub entries : List JarEntry
  pub updated : List ℕ

-- What reading the jar's file gives.
pub data ReadOutcome : Type 0 where
  missing : ReadOutcome
  empty_file : ReadOutcome
  parsed : List JarEntry → ReadOutcome
  unparseable : ReadOutcome
  read_failed : ReadOutcome

unfoldable pub load : ReadOutcome → Result CookieJar
load missing = ok (record { entries = []; updated = [] })
load empty_file = ok (record { entries = []; updated = [] })
load (parsed es) = ok (record { entries = es; updated = [] })
load unparseable = err (new io_error)
load read_failed = err (new io_error)

abbrev pub host_or_empty : Option Text → Text
host_or_empty none = []
host_or_empty (some h) = h

-- The three filters on one entry, after the one on its expiry.
unfoldable pub applies : JarEntry → Url → Bool
unfolding domain_matches path_matches
applies e url =
    (not e.secure || text_eq url.scheme (codes "https"))
    && (domain_matches e.domain e.host_only (host_or_empty url.host)
        && path_matches e.path url.path)

unfoldable pub applicable_entries : CookieJar → Url → ℤ → List JarEntry
unfolding applies is_expired
applicable_entries jar url now =
    keep (λ e. applies e url) (keep (λ e. not (is_expired e now)) jar.entries)

unfoldable pub applicable_cookies : (ℤ → Bool) → CookieJar → Url → ℤ → List Cookie
unfolding applicable_entries
applicable_cookies in_range jar url now = map (to_cookie in_range) (applicable_entries jar url now)

-- The index that `position` found, or a push at the end.
abbrev pub placed : JarEntry → List JarEntry → Option ℕ → List JarEntry
placed e es (some idx) = set es idx e
placed e es none = es ++ e ∷ []

-- `if let Some(idx) = es.iter().position(..) { es[idx] = e } else { es.push(e) }`
unfoldable pub put_entry : JarEntry → List JarEntry → List JarEntry
put_entry e es = placed e es (position (λ x. same_identity x e) es)

abbrev pub place_of : JarEntry → List JarEntry → ℕ
place_of e es = elim (position (λ x. same_identity x e) es) [ some idx ↦ idx | none ↦ length es ]

unfoldable pub store : JarEntry → CookieJar → CookieJar
unfolding put_entry
store e jar = record {
  entries = put_entry e jar.entries;
  updated = place_of e jar.entries ∷ jar.updated;
}

merge_at : HostNames → Cookie → Url → Option Text → ℤ → CookieJar → Bool × CookieJar
unfolding store
merge_at names c url none now jar = (false, jar)
merge_at names c url (some host) now jar =
    if may_set_domain names c.domain host
    then (true, store (from_set_cookie c url now) jar)
    else (false, jar)

unfoldable pub merge : HostNames → Cookie → Url → ℤ → CookieJar → Bool × CookieJar
unfolding merge_at
merge names c url now jar = merge_at names c url url.host now jar

abbrev pub asks_secure : Option Bool → Bool
asks_secure (some true) = true
asks_secure _ = false

unfoldable pub merge_response : HostNames → Cookie → Url → ℤ → CookieJar → Bool × CookieJar
merge_response names c url now jar =
    if not (text_eq url.scheme (codes "https"))
      && (asks_secure c.secure
          || any (λ e. e.secure && same_identity e (from_set_cookie c url now)) jar.entries)
    then (false, jar)
    else merge names c url now jar

unfoldable pub holds_unchanged : CookieJar → Cookie → Url → ℤ → Bool
holds_unchanged jar c url now = any (λ e. same_content e (from_set_cookie c url now)) jar.entries

-- `prune_expired`
unfoldable pub prune_expired : ℤ → List JarEntry → List JarEntry
unfolding is_expired
prune_expired now es = keep (λ e. not (is_expired e now)) es

pub record RedactedCookie : Type 0 where
  pub name : Text
  pub domain : Option Text
  pub path : Option Text
  pub expires_epoch_s : Option ℤ
  pub secure : Bool
  pub http_only : Bool
  pub same_site : Option Text

redacted : JarEntry → RedactedCookie
redacted e = record {
  name = e.name;
  domain = e.domain;
  path = e.path;
  expires_epoch_s = e.expires_epoch_s;
  secure = e.secure;
  http_only = e.http_only;
  same_site = e.same_site;
}

unfoldable pub cookies_redacted : ℤ → CookieJar → List RedactedCookie
unfolding redacted
cookies_redacted now jar = map redacted (keep (λ e. not (is_expired e now)) jar.entries)

-- `updated.contains(&i)`
unfoldable pub was_updated : List ℕ → ℕ → Bool
was_updated updated i = any (λ j. j == i) updated

-- The loop of `persist` over the jar's entries, from index `i`, onto the entries read from disk.
unfoldable pub replay : List ℕ → ℕ → List JarEntry → List JarEntry → List JarEntry
replay updated i [] disk = disk
replay updated i (e ∷ es) disk =
    replay updated (suc i) es (if was_updated updated i then put_entry e disk else disk)

-- Whether each call of `persist` on the file system succeeds.
pub record PersistIo : Type 0 where
  pub has_parent : Bool
  pub dir_created : Bool
  pub lock_opened : Bool
  pub lock_acquired : Bool
  pub serialized : Bool
  pub written : Bool

abbrev pub need : Bool → Result (Unit {0})
need true = ok tt
need false = err (new io_error)

-- What `persist` writes: `disk` is the file as read under the lock.
unfoldable pub persist_entries : ℤ → CookieJar → List JarEntry → List JarEntry
unfolding prune_expired replay
persist_entries now jar disk = prune_expired now (replay jar.updated 0 jar.entries disk)

-- The file after `persist`: its new content, or the error that left it as it was.
unfoldable pub persist : PersistIo → ReadOutcome → ℤ → CookieJar → Result (List JarEntry)
unfolding persist_entries load new
persist io file now jar = do
  need io.has_parent
  need io.dir_created
  need io.lock_opened
  need io.lock_acquired
  on_disk ← load file
  need io.serialized
  need io.written
  ok (persist_entries now jar on_disk.entries)
