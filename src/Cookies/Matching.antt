-- ===== src/Cookies/Matching.antt =====
-- Which requests an entry is sent with, against the rules of RFC 6265 written out, and that a
-- response's own URL is among them.
use agent_first_http.Prelude.{
  Text, codes, ◌≡◌, ◌⊎◌, ◌↔◌, Bool, true, false, Option, none, some, ◌∷◌, ◌++◌, inl, inr, arith,
  if◌then◌else◌, Bool-cases, Option-cases, text_eq, text_eq_iff, starts_with_char, ends_with_char,
  ends_with_sound, ends_with-append, strip_prefix, strip_prefix_sound, strip_prefix-append,
}
use agent_first_http.Cookies.Scope.{
  Url, normal_host, within, domain_matches, path_matches, below_path, or_root,
}
use agent_first_http.Cookies.Entry.{JarEntry}
use agent_first_http.Cookies.Jar.{applies, host_or_empty}

-- RFC 6265 §5.1.3: the host is the domain, or ends in a dot and the domain.
abbrev pub IsWithin : Text → Text → Type 0
IsWithin d host = (host ≡ d) ⊎ ((p : Text) × (host ≡ p ++ b'.' ∷ d))

-- RFC 6265 §5.1.4: the request path is the cookie's path, or goes on below it at a slash.
abbrev pub IsPathMatch : Text → Text → Type 0
IsPathMatch cp request =
    (cp ≡ request)
    ⊎ ((rest : Text) × (request ≡ cp ++ rest)
        × ((ends_with_char cp b'/' ≡ true) ⊎ (starts_with_char rest b'/' ≡ true)))

pub within_iff : (d host : Text) → (within d host ≡ true) ↔ IsWithin d host
unfolding within
within_iff d host = (to, from)
  where
    to : within d host ≡ true → IsWithin d host
    to h = elim (Bool-cases (text_eq host d)) [
      | inl p ↦ inl ((text_eq_iff host d).0 p)
      | inr p ↦ inr (ends_with_sound host (b'.' ∷ d) (ground arith))
    ]

    from : IsWithin d host → within d host ≡ true
    from (inl e) = rw ((text_eq_iff host d).1 e)
    from (inr (p, e)) = rw e (ground (arith, ends_with-append p (b'.' ∷ d)))

pub path_matches_iff :
    (cp : Option Text) (request : Text)
    → (path_matches cp request ≡ true) ↔ IsPathMatch (or_root cp) request
unfolding path_matches
path_matches_iff cp request = (to (or_root cp), from (or_root cp))
  where
    to :
        (p : Text)
        → (if text_eq p request then true else below_path p (strip_prefix p request)) ≡ true
        → IsPathMatch p request
    to p h = elim (Bool-cases (text_eq p request)) [
      | inl q ↦ inl ((text_eq_iff p request).0 q)
      | inr q ↦ elim (Option-cases (strip_prefix p request)) [
        | inl s ↦ absurd (ground arith)
        | inr s ↦ inr (s.0, strip_prefix_sound p request s.0 s.1, ground arith)
      ]
    ]

    from :
        (p : Text)
        → IsPathMatch p request
        → (if text_eq p request then true else below_path p (strip_prefix p request)) ≡ true
    from p (inl e) = rw ((text_eq_iff p request).1 e)
    from p (inr (rest, e, h)) = rw e (ground (arith, strip_prefix-append p rest))

-- What an entry asks of the host: the very host for a host-only entry, one within its domain else.
abbrev pub IsHostMatch : Option Text → Bool → Text → Type 0
IsHostMatch none host_only host = ⊥
IsHostMatch (some d) true host = normal_host host ≡ normal_host d
IsHostMatch (some d) false host = IsWithin (normal_host d) (normal_host host)

domain_matches_iff :
    (d : Option Text) (host_only : Bool) (host : Text)
    → (domain_matches d host_only host ≡ true) ↔ IsHostMatch d host_only host
unfolding domain_matches
domain_matches_iff none host_only host = (λ h. absurd (ground arith), λ h. absurd h)
domain_matches_iff (some d) true host = text_eq_iff (normal_host host) (normal_host d)
domain_matches_iff (some d) false host = within_iff (normal_host d) (normal_host host)

-- An entry passes the filters of a request exactly when it is sent over https or needs not be, its
-- domain matches the host, and its path matches the request's by the rule of RFC 6265.
pub applies_iff :
    (e : JarEntry) (url : Url)
    → (applies e url ≡ true) ↔ (
        ((e.secure ≡ false) ⊎ (url.scheme ≡ codes "https"))
        × IsHostMatch e.domain e.host_only (host_or_empty url.host)
        × IsPathMatch (or_root e.path) url.path)
unfolding applies
applies_iff e url = (to, from)
  where
    host : Text
    host = host_or_empty url.host

    to :
        applies e url ≡ true
        → ((e.secure ≡ false) ⊎ (url.scheme ≡ codes "https"))
          × IsHostMatch e.domain e.host_only host
          × IsPathMatch (or_root e.path) url.path
    to h = (
      ground (arith, text_eq_iff url.scheme (codes "https")),
      (domain_matches_iff e.domain e.host_only host).0 (ground arith),
      (path_matches_iff e.path url.path).0 (ground arith),
    )

    from :
        ((e.secure ≡ false) ⊎ (url.scheme ≡ codes "https"))
          × IsHostMatch e.domain e.host_only host
          × IsPathMatch (or_root e.path) url.path
        → applies e url ≡ true
    from (s, d, p) = ground (
      arith,
      text_eq_iff url.scheme (codes "https"),
      (domain_matches_iff e.domain e.host_only host).1 d,
      (path_matches_iff e.path url.path).1 p,
    )
