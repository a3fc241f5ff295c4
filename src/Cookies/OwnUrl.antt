-- ===== src/Cookies/OwnUrl.antt =====
-- A cookie with no `Path` that a response was allowed to set goes back to the URL that set it.
use agent_first_http.Prelude.{
  ℕ, zero, suc, Text, codes, ◌≡◌, refl, ap, subst, ◌∙◌, true, not, ◌||◌, Option, none, some, [],
  ◌∷◌, ◌++◌, inl, inr, arith, if◌then◌else◌, Option-cases, ℤ, ◌==◌, text_eq, text_eq_refl,
  starts_with_char, ends_with_char, take, rposition,
}
use agent_first_http.Cookies.Scope.{
  Url, HostNames, normal_host, domain_matches, path_matches, may_set_domain, default_path,
  up_to_slash,
}
use agent_first_http.Cookies.Entry.{Cookie, from_set_cookie, entry_domain, is_none}
use agent_first_http.Cookies.Jar.{CookieJar, applies, merge, host_or_empty}
use agent_first_http.Cookies.Isolation.{normal_host_idem}
use agent_first_http.Cookies.Matching.{IsPathMatch, path_matches_iff}
use agent_first_http.Cookies.Merging.{permitted, permitted_from, merge-accepts}

-- The last position of a character cuts a text in two, the second part beginning with it.
rposition_cut :
    (k : ℕ) (s : Text) (i : ℕ)
    → rposition (λ c. c == k) s ≡ some i
    → (rest : Text) × (s ≡ take i s ++ k ∷ rest)
unfolding rposition
rposition_cut k [] i h = absurd (ground arith)
rposition_cut k (c ∷ s) i h = elim (Option-cases (rposition (λ c. c == k) s)) [
  | inl e ↦ first i (rw e at h)
  | inr e ↦ later i e.0 (rposition_cut k s e.0 e.1) (rw e.1 at h)
]
  where
    first :
        (i : ℕ)
        → (if c == k then some 0 else none) ≡ some i
        → (rest : Text) × (c ∷ s ≡ take i (c ∷ s) ++ k ∷ rest)
    first zero p = (s, ground arith)
    first (suc i) p = absurd (ground arith)

    later :
        (i j : ℕ)
        → ((rest : Text) × (s ≡ take j s ++ k ∷ rest))
        → some (suc j) ≡ some i
        → (rest : Text) × (c ∷ s ≡ take i (c ∷ s) ++ k ∷ rest)
    later zero j r p = absurd (ground arith)
    later (suc i) j r p =
        (r.0, ap (λ (t : Text). c ∷ t) (r.1 ∙ ap (λ (n : ℕ). take n s ++ k ∷ r.0) (ground arith)))

up_to_slash-IsPathMatch :
    (path : Text) (i : Option ℕ)
    → rposition (λ c. c == b'/') path ≡ i
    → starts_with_char path b'/' ≡ true
    → IsPathMatch (up_to_slash path i) path
unfolding ends_with_char
up_to_slash-IsPathMatch [] i e h = absurd (ground arith)
up_to_slash-IsPathMatch (c ∷ s) none e h = inr (s, ground arith, inl (ground arith))
up_to_slash-IsPathMatch (c ∷ s) (some zero) e h = inr (s, ground arith, inl (ground arith))
up_to_slash-IsPathMatch (c ∷ s) (some (suc i)) e h =
    let cut = rposition_cut b'/' (c ∷ s) (suc i) e in
    let same : take (suc i) (c ∷ s) ≡ up_to_slash (c ∷ s) (some (suc i)) = ground arith in
    subst (λ (p : Text). IsPathMatch p (c ∷ s)) same (inr (b'/' ∷ cut.0, cut.1, inr (ground arith)))

-- The default path of a URL matches the URL's own path.
default_path-path_matches :
    (url : Url)
    → starts_with_char url.path b'/' ≡ true
    → path_matches (some (default_path url)) url.path ≡ true
unfolding default_path
default_path-path_matches url h = rw h (
    (path_matches_iff (some (up_to_slash url.path (rposition (λ c. c == b'/') url.path)))
        url.path).1
      (up_to_slash-IsPathMatch url.path (rposition (λ c. c == b'/') url.path) refl h))

own_host :
    (names : HostNames) (domain host : Option Text)
    → permitted_from names domain host ≡ true
    → domain_matches (entry_domain domain host) (is_none domain) (host_or_empty host) ≡ true
unfolding domain_matches may_set_domain
own_host names domain none h = cc
own_host names none (some host) h = text_eq_refl (normal_host host)
own_host names (some d) (some host) h = rw (normal_host_idem d) (ground arith)

-- Where a response from a URL with an absolute path was allowed to set a cookie that names no path,
-- and that is not for https alone unless the URL is https, the stored entry applies to that URL.
pub applies-merge_own :
    (names : HostNames) (c : Cookie) (url : Url) (now : ℤ) (jar : CookieJar)
    → (merge names c url now jar).0 ≡ true
    → c.path ≡ none
    → starts_with_char url.path b'/' ≡ true
    → (not (from_set_cookie c url now).secure || text_eq url.scheme (codes "https")) ≡ true
    → applies (from_set_cookie c url now) url ≡ true
unfolding applies from_set_cookie permitted
applies-merge_own names c url now jar accepted no_path rooted s =
    let ok_ : permitted names c url ≡ true = rw merge-accepts at accepted in
    rw (no_path)
      (ground (arith, default_path-path_matches url rooted, own_host names c.domain url.host ok_))
