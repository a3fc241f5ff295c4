-- ===== src/Cookies/Plaintext.antt =====
-- Responses that did not arrive over https leave the `Secure` cookies of the jar alone.
use agent_first_http.Prelude.{
  codes, ◌≡◌, refl, Bool, true, false, ◌&&◌, ◌||◌, List, [], ◌∷◌, inl, inr, arith, if◌then◌else◌,
  Bool-cases, ℤ, keep, any, text_eq,
}
use agent_first_http.Cookies.Scope.{Url, HostNames}
use agent_first_http.Cookies.Entry.{JarEntry, Cookie, same_identity, from_set_cookie}
use agent_first_http.Cookies.Jar.{CookieJar, asks_secure, put_entry, merge_response}
use agent_first_http.Cookies.Identity.{put_entry-nil, put_entry-cons}
use agent_first_http.Cookies.Merging.{permitted, merge-entries}

abbrev pub secure_entries : CookieJar → List JarEntry
secure_entries jar = keep (λ e. e.secure) jar.entries

not_secure :
    (c : Cookie) (url : Url) (now : ℤ)
    → asks_secure c.secure ≡ false
    → (from_set_cookie c url now).secure ≡ false
unfolding from_set_cookie
not_secure c url now h = ground arith

-- With no secure entry of the identity of a plain entry, storing it changes no secure entry.
keep_secure-put_entry :
    (e : JarEntry) (es : List JarEntry)
    → e.secure ≡ false
    → any (λ x. x.secure && same_identity x e) es ≡ false
    → keep (λ x. x.secure) (put_entry e es) ≡ keep (λ x. x.secure) es
unfolding keep any
keep_secure-put_entry e [] p h = rw put_entry-nil (ground arith)
keep_secure-put_entry e (x ∷ xs) p h =
    rw put_entry-cons (ground (arith, keep_secure-put_entry e xs p))

-- A response over anything but https leaves the secure entries as they were: none is added,
-- replaced, removed or moved, whether the response is accepted or refused.
pub merge_response-secure_kept :
    (names : HostNames) (c : Cookie) (url : Url) (now : ℤ) (jar : CookieJar)
    → text_eq url.scheme (codes "https") ≡ false
    → secure_entries (merge_response names c url now jar).1 ≡ secure_entries jar
unfolding merge_response
merge_response-secure_kept names c url now jar h = elim (Bool-cases refused) [
  | inl r ↦ rw (h, r)
  | inr r ↦ rw (h, r) (rw merge-entries (kept r (permitted names c url)))
]
  where
    e : JarEntry
    e = from_set_cookie c url now

    shadows : Bool
    shadows = any (λ x. x.secure && same_identity x e) jar.entries

    refused : Bool
    refused = asks_secure c.secure || shadows

    kept :
        refused ≡ false
        → (b : Bool)
        → keep (λ x. x.secure) (if b then put_entry e jar.entries else jar.entries)
          ≡ secure_entries jar
    kept r false = refl
    kept r true =
        keep_secure-put_entry e jar.entries (not_secure c url now (ground arith)) (ground arith)
