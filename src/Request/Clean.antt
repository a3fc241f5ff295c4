-- ===== src/Request/Clean.antt =====
-- Options that hold no credentials, and the options of a hop that is made from such.
use agent_first_http.Prelude.{
  ℕ, ◌<◌, ◌≡◌, refl, sym, ap, subst, ◌∙◌, ◌⊎◌, inl, inr, Text, Bool, true, false, not, Option, none,
  some, List, [], ◌∷◌, ◌++◌, ltb, if◌then◌else◌, keep, All, text_keys, member, Bool-cases, arith,
}
use agent_first_http.Errors.{ok}
use agent_first_http.Cookies.Scope.{Url}
use agent_first_http.Request.Values.{PreparedCookie, in_cookie_scope}
use agent_first_http.Request.Options.{
  PreparedHeader, PreparedRequestOptions, merge_jar_cookies, is_origin_scoped_header, merge_into,
  names_of,
}
use agent_first_http.Request.Redirects.{
  HopUrl, same_origin, Exchange, Client, jar_cookies, with_jar, scope_cookies, leave_origin,
  change_method, becomes_get,
}

-- Options without credentials.
pub record IsClean (o : PreparedRequestOptions) : Type 0 where
  pub headers_clean : All (λ (h : PreparedHeader). is_origin_scoped_header h.name ≡ false) o.headers
  pub no_raw : o.raw_cookie_header ≡ none
  pub no_cookies : o.cookies ≡ []

keep-All_clean :
    (q : PreparedHeader → Bool) (hs : List PreparedHeader)
    → All (λ (h : PreparedHeader). is_origin_scoped_header h.name ≡ false) hs
    → All (λ (h : PreparedHeader). is_origin_scoped_header h.name ≡ false) (keep q hs)
unfolding keep
keep-All_clean q [] a = tt
keep-All_clean q (h ∷ hs) a = ground (arith, keep-All_clean q hs a.1)

keep_unscoped :
    (hs : List PreparedHeader)
    → All
        (λ (h : PreparedHeader). is_origin_scoped_header h.name ≡ false)
        (keep (λ h. not (is_origin_scoped_header h.name)) hs)
unfolding keep
keep_unscoped [] = tt
keep_unscoped (h ∷ hs) = ground (arith, keep_unscoped hs)

pub change_method-IsClean :
    (status : ℕ) (o : PreparedRequestOptions) → IsClean o → IsClean (change_method status o)
unfolding change_method
change_method-IsClean status o k = elim (Bool-cases (becomes_get status o.method)) [
  | inl e ↦
      rw (e, change_method)
        (record {
          headers_clean = keep-All_clean _ o.headers k.headers_clean;
          no_raw = k.no_raw;
          no_cookies = k.no_cookies;
        })
  | inr e ↦ rw (e, change_method) k
]

pub leave_origin-IsClean :
    (u next : HopUrl) (o : PreparedRequestOptions)
    → (same_origin u next ≡ false) ⊎ IsClean o
    → IsClean (leave_origin u next o)
unfolding leave_origin
leave_origin-IsClean u next o k = elim (Bool-cases (same_origin u next)) [
  | inr e ↦
      rw (e, leave_origin)
        (record { headers_clean = keep_unscoped o.headers; no_raw = refl; no_cookies = refl })
  | inl e ↦ rw (e, leave_origin) (elim k [ inl f ↦ absurd (ground arith) | inr clean ↦ clean ])
]

keep_all_jar :
    (cs : List PreparedCookie) → keep (λ (k : PreparedCookie). not (member k.name [])) cs ≡ cs
unfolding keep member
keep_all_jar [] = refl
keep_all_jar (c ∷ cs) = ap (λ (l : List PreparedCookie). c ∷ l) (keep_all_jar cs)

module _ (c : Client) (o : PreparedRequestOptions) (clean : IsClean o)
    (extras : List PreparedCookie) where
  merged_raw :
      (raw : Option Text)
      → o.raw_cookie_header ≡ raw
      → (merge_into c.wiring o extras raw).raw_cookie_header ≡ none
  merged_raw none e = clean.no_raw
  merged_raw (some r) e = cc (clean.no_raw)

  merged_cookies :
      (raw : Option Text)
      → o.raw_cookie_header ≡ raw
      → (merge_into c.wiring o extras raw).cookies ≡ extras
  unfolding names_of
  merged_cookies none e =
      subst
        (λ (cs : List PreparedCookie).
          cs ++ keep (λ (k : PreparedCookie). not (member k.name (names_of cs))) extras ≡ extras)
        (sym clean.no_cookies) (keep_all_jar extras)
  merged_cookies (some r) e = cc (clean.no_raw)

  merged_headers : (raw : Option Text) → (merge_into c.wiring o extras raw).headers ≡ o.headers
  merged_headers none = refl
  merged_headers (some r) = refl

  with_jar_case :
      (has_jar : Bool)
      → (has_jar ≡ false → extras ≡ [])
      → let o' = if has_jar then merge_into c.wiring o extras o.raw_cookie_header else o in
        (o'.raw_cookie_header ≡ none) × (o'.cookies ≡ extras) × (o'.headers ≡ o.headers)
  with_jar_case true h = (
    merged_raw o.raw_cookie_header refl,
    merged_cookies o.raw_cookie_header refl,
    merged_headers o.raw_cookie_header,
  )
  with_jar_case false h = (clean.no_raw, clean.no_cookies ∙ sym (h refl), refl)

  -- Clean options with the jar's cookies have no other cookies, once there was a redirect.
  pub hop_options :
      (redirects : ℕ) (url : Url)
      → 0 < redirects
      → (c.has_jar ≡ false → extras ≡ [])
      → let o' = scope_cookies redirects url (with_jar c extras o) in
        (o'.raw_cookie_header ≡ none)
        × (o'.cookies ≡ keep (λ k. in_cookie_scope k url) extras)
        × (o'.headers ≡ o.headers)
  unfolding merge_jar_cookies scope_cookies
  hop_options redirects url later h =
      let t = with_jar_case c.has_jar h in
      let first : ltb 0 redirects ≡ true = ground arith in
      rw first
        (t.0, ap (λ (cs : List PreparedCookie). keep (λ k. in_cookie_scope k url) cs) t.1, t.2)

pub no_jar_cookies :
    (c : Client) (x : Exchange) (url : Url) {extras : List PreparedCookie}
    → jar_cookies c x url ≡ ok extras
    → c.has_jar ≡ false
    → extras ≡ []
unfolding jar_cookies
no_jar_cookies c x url h e = ground arith
