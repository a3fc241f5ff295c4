-- ===== src/Cookies/Merging.antt =====
-- What `merge` does to the jar: the entry of one identity is replaced, or nothing is.
use agent_first_http.Prelude.{
  Text, ◌≡◌, Bool, true, false, ◌&&◌, Option, none, some, List, [], ◌∷◌, inl, inr, arith,
  if◌then◌else◌, Option-cases, ℤ, keep,
}
use agent_first_http.Cookies.Scope.{Url, HostNames, may_set_domain}
use agent_first_http.Cookies.Entry.{JarEntry, Cookie, same_identity, from_set_cookie}
use agent_first_http.Cookies.Jar.{CookieJar, put_entry, store, merge}
use agent_first_http.Cookies.Identity.{
  put_entry-nil, put_entry-cons, stored, stored-put_entry, IsUnique, put_entry-IsUnique,
}

-- Whether the response may set the cookie at all.
abbrev pub permitted_from : HostNames → Option Text → Option Text → Bool
permitted_from names domain none = false
permitted_from names domain (some host) = may_set_domain names domain host

unfoldable pub permitted : HostNames → Cookie → Url → Bool
permitted names c url = permitted_from names c.domain url.host

pub merge-branches :
    (names : HostNames) (c : Cookie) (url : Url) (now : ℤ) (jar : CookieJar)
    → merge names c url now jar ≡ (
        if permitted names c url
        then (true, store (from_set_cookie c url now) jar)
        else (false, jar))
unfolding merge permitted
merge-branches names c url now jar = elim (Option-cases url.host) [ inl e ↦ rw e | inr e ↦ rw e.1 ]

pub merge-accepts :
    (names : HostNames) (c : Cookie) (url : Url) (now : ℤ) (jar : CookieJar)
    → (merge names c url now jar).0 ≡ permitted names c url
merge-accepts names c url now jar = rw merge-branches (ground arith)

pub merge-entries :
    (names : HostNames) (c : Cookie) (url : Url) (now : ℤ) (jar : CookieJar)
    → (merge names c url now jar).1.entries ≡ (
        if permitted names c url
        then put_entry (from_set_cookie c url now) jar.entries
        else jar.entries)
merge-entries names c url now jar = rw merge-branches (unfold store in ground arith)

-- A jar that holds at most one entry for each identity still does after a response is merged, and
-- the response has changed the entry of the cookie's identity alone: it holds the new entry if the
-- cookie was accepted, and every other identity holds what it held.
pub merge_lem :
    (names : HostNames) (c : Cookie) (url : Url) (now : ℤ) (jar : CookieJar)
    → IsUnique jar.entries
    → let result = merge names c url now jar in
      let e = from_set_cookie c url now in
      IsUnique result.1.entries
      × ((k : JarEntry)
          → stored k result.1.entries
            ≡ (if result.0 && same_identity e k then some e else stored k jar.entries))
merge_lem names c url now jar h = (
  rw merge-entries (if_intro' (permitted names c url)),
  λ k.
      rw (merge-entries, merge-accepts)
        (ground (arith, stored-put_entry (from_set_cookie c url now) k jar.entries)),
)
  where
    if_intro' :
        (b : Bool)
        → IsUnique (if b then put_entry (from_set_cookie c url now) jar.entries else jar.entries)
    if_intro' true = put_entry-IsUnique (from_set_cookie c url now) jar.entries h
    if_intro' false = h

-- Entries that a test rejects are not seen through the test. If it rejects the new entry and every
-- entry of the same identity, it sees no change.
pub keep-put_entry :
    (p : JarEntry → Bool) (e : JarEntry) (es : List JarEntry)
    → p e ≡ false
    → ((x : JarEntry) → same_identity x e ≡ true → p x ≡ false)
    → keep p (put_entry e es) ≡ keep p es
unfolding keep
keep-put_entry p e [] he h = rw put_entry-nil (ground arith)
keep-put_entry p e (x ∷ xs) he h =
    rw put_entry-cons (ground (arith, h x, keep-put_entry p e xs he h))
