-- ===== src/Request/Sent.antt =====
-- The headers of the request of a hop that is made from options without credentials.
use agent_first_http.Prelude.{
  ◌⊎◌, ℕ, ◌<◌, ◌≡◌, refl, sym, ap, subst, ◌∙◌, inl, inr, Text, codes, Bool, true, false, Option,
  none, some, List, [], ◌∷◌, if◌then◌else◌, text_eq, text_eq_iff, text_eq_refl, text_eq_sym, any,
  keep, All, ℤ, get, put, get-put, text_keys, Bool-cases, arith,
}
use agent_first_http.Errors.{new, invalid_argument, Result, ok, err, ◌>>=◌, >>=-ok}
use agent_first_http.Cookies.Scope.{Url}
use agent_first_http.Request.Values.{PreparedCookie, Wiring, in_cookie_scope}
use agent_first_http.Request.Options.{
  PreparedHeader, PreparedRequestOptions, http_header_map, is_origin_scoped_header, insert_headers,
  put_some, cookie_header_for_url, cookie_value,
}
use agent_first_http.Request.Redirects.{
  HopUrl, same_origin, Exchange, Client, Wire, jar_cookies, with_jar, scope_cookies, build_wire,
  prepare_hop,
}
use agent_first_http.Request.Clean.{IsClean, hop_options, no_jar_cookies}

-- What is in the headers of a request to another origin than the one the caller asked for: none of the
-- headers that go to that one alone, and the jar's cookies for the URL in place of the caller's.
pub record IsForeign (c : Client) (w : Wire) : Type 0 where
  pub no_credentials :
      (name : Text)
      → is_origin_scoped_header name ≡ true
      → text_eq name (codes "cookie") ≡ false
      → get name w.headers ≡ none
  pub jar_alone :
      cookie_header_for_url c.wiring w.sent_at
        (keep (λ k. in_cookie_scope k w.url.url) w.jar)
        w.url.url
      ≡ ok (get (codes "cookie") w.headers)

abbrev pub StaysHome : Client → HopUrl → Wire → Type 0
StaysHome c start w = (same_origin start w.url ≡ true) ⊎ IsForeign c w

agent_unscoped : is_origin_scoped_header (codes "user-agent") ≡ false
unfolding is_origin_scoped_header any text_eq
agent_unscoped = refl

cookie_scoped : is_origin_scoped_header (codes "cookie") ≡ true
unfolding is_origin_scoped_header any text_eq
cookie_scoped = refl

scoped_differ :
    (a b : Text)
    → is_origin_scoped_header a ≡ false
    → is_origin_scoped_header b ≡ true
    → text_eq a b ≡ false
scoped_differ a b h k = elim (Bool-cases (text_eq a b)) [
  | inr e ↦ e
  | inl e ↦ absurd (ground (arith, ap is_origin_scoped_header ((text_eq_iff a b).0 e)))
]

-- The headers of a request.
get-insert_headers :
    (name : Text) (hs : List PreparedHeader) (m : List (Text × Text))
    → is_origin_scoped_header name ≡ true
    → All (λ (h : PreparedHeader). is_origin_scoped_header h.name ≡ false) hs
    → get name (insert_headers hs m) ≡ get name m
unfolding insert_headers
get-insert_headers name [] m s a = refl
get-insert_headers name (h ∷ hs) m s a =
    get-insert_headers name hs (put h.name h.value m) s a.1
    ∙ (get-put h.name name h.value m ∙ rw (scoped_differ h.name name a.0 s) refl)

get-put_some :
    (k name : Text) (v : Option Text) (m : List (Text × Text))
    → text_eq k name ≡ false
    → get name (put_some k v m) ≡ get name m
get-put_some k name none m h = refl
get-put_some k name (some v) m h = get-put k name v m ∙ rw h refl

get-put_some_self :
    (k : Text) (v : Option Text) (m : List (Text × Text))
    → get k m ≡ none
    → get k (put_some k v m) ≡ v
get-put_some_self k none m h = h
get-put_some_self k (some v) m h = get-put k k v m ∙ rw (text_eq_refl k) refl

-- The headers of options without a `Cookie` header of the caller.
header_map_parts :
    (w : Wiring) (now : ℤ) (o : PreparedRequestOptions) (url : Url) (raw : Option Text)
    {headers : List (Text × Text)}
    → raw ≡ none
    → (cookie_value w now o raw url >>= λ (cookie : Option Text). ok (
        put_some
          (codes "cookie")
          cookie
          (put_some (codes "user-agent") o.user_agent (insert_headers o.headers []))))
      ≡ ok headers
    → (cookie : Option Text) × (cookie_header_for_url w now o.cookies url ≡ ok cookie)
      × (put_some
            (codes "cookie")
            cookie
            (put_some (codes "user-agent") o.user_agent (insert_headers o.headers []))
          ≡ headers)
header_map_parts w now o url (some r) n h = cc
header_map_parts w now o url none n h =
    let (cookie, e, f) = >>=-ok (cookie_header_for_url w now o.cookies url) _ h in (cookie, e, cc f)

module _ (hs : List PreparedHeader)
    (unscoped : All (λ (h : PreparedHeader). is_origin_scoped_header h.name ≡ false) hs)
    (agent cookie : Option Text) where
  with_agent : List (Text × Text)
  with_agent = put_some (codes "user-agent") agent (insert_headers hs [])

  get-with_agent : (name : Text) → is_origin_scoped_header name ≡ true → get name with_agent ≡ none
  unfolding with_agent get
  get-with_agent name s =
      get-put_some (codes "user-agent") name agent (insert_headers hs [])
        (scoped_differ (codes "user-agent") name agent_unscoped s)
      ∙ get-insert_headers name hs [] s unscoped

  no_credentials_sent :
      (name : Text)
      → is_origin_scoped_header name ≡ true
      → text_eq name (codes "cookie") ≡ false
      → get name (put_some (codes "cookie") cookie with_agent) ≡ none
  no_credentials_sent name s d =
      get-put_some (codes "cookie") name cookie with_agent (text_eq_sym (codes "cookie") name ∙ d)
      ∙ get-with_agent name s

  cookie_sent : get (codes "cookie") (put_some (codes "cookie") cookie with_agent) ≡ cookie
  cookie_sent =
      get-put_some_self (codes "cookie") cookie with_agent
        (get-with_agent (codes "cookie") cookie_scoped)

-- What a request was made from.
pub build_wire-parts :
    (c : Client) (x : Exchange) (u : HopUrl) (extras : List PreparedCookie)
    (opts : PreparedRequestOptions) (w : Wire)
    → build_wire c x u extras opts ≡ ok w
    → (headers : List (Text × Text)) × (http_header_map c.wiring x.now opts u.url ≡ ok headers)
      × (w ≡ record {
        url = u;
        method = opts.method;
        headers = headers;
        body = opts.body_payload;
        jar = extras;
        sent_at = x.now;
      })
unfolding build_wire
build_wire-parts c x u extras opts w h = go (c.wiring.is_method opts.method) h
  where
    Parts : Type 0
    Parts =
        (headers : List (Text × Text)) × (http_header_map c.wiring x.now opts u.url ≡ ok headers)
        × (w ≡ record {
          url = u;
          method = opts.method;
          headers = headers;
          body = opts.body_payload;
          jar = extras;
          sent_at = x.now;
        })

    made : List (Text × Text) → Result Wire
    made headers = ok (record {
      url = u;
      method = opts.method;
      headers = headers;
      body = opts.body_payload;
      jar = extras;
      sent_at = x.now;
    })

    go :
        (b : Bool)
        → (if b
            then http_header_map c.wiring x.now opts u.url >>= made
            else err (new invalid_argument))
          ≡ ok w
        → Parts
    go false e = cc
    go true e =
        let (headers, f, g) = >>=-ok (http_header_map c.wiring x.now opts u.url) made e in
        (headers, f, cc g)

module _ (c : Client) (x : Exchange) (redirects : ℕ) (u : HopUrl) (o : PreparedRequestOptions) where
  clean-IsForeign :
      (w : Wire) (extras : List PreparedCookie)
      → IsClean o
      → 0 < redirects
      → jar_cookies c x u.url ≡ ok extras
      → build_wire c x u extras (scope_cookies redirects u.url (with_jar c extras o)) ≡ ok w
      → IsForeign c w
  unfolding http_header_map with_agent
  clean-IsForeign w extras clean later e f =
      let opts = scope_cookies redirects u.url (with_jar c extras o) in
      let (raw, cookies, headers) =
        hop_options c o clean extras redirects u.url later (no_jar_cookies c x u.url e) in
      let (map, g, same) = build_wire-parts c x u extras opts w f in
      let (cookie, k, m) =
        header_map_parts c.wiring x.now opts u.url opts.raw_cookie_header raw g in
      let unscoped =
        subst (All (λ (h : PreparedHeader). is_origin_scoped_header h.name ≡ false)) (sym headers)
          clean.headers_clean in
      let found =
        subst (λ (hs : List (Text × Text)). get (codes "cookie") hs ≡ cookie) m
          (cookie_sent opts.headers unscoped opts.user_agent cookie) in
      subst (IsForeign c) (sym same) (record {
        no_credentials = λ name s d.
            subst (λ (hs : List (Text × Text)). get name hs ≡ none) m
              (no_credentials_sent opts.headers unscoped opts.user_agent cookie name s d);
        jar_alone =
            subst
              (λ (cs : List PreparedCookie).
                cookie_header_for_url c.wiring x.now cs u.url ≡ ok (get (codes "cookie") map))
              cookies (k ∙ ap (λ (v : Option Text). ok v) (sym found));
      })

  -- The request of a hop that has clean options.
  pub hop-IsForeign :
      (w : Wire) → IsClean o → 0 < redirects → prepare_hop c x redirects u o ≡ ok w → IsForeign c w
  unfolding prepare_hop
  hop-IsForeign w clean later h =
      let (extras, e, f) = >>=-ok (jar_cookies c x u.url) _ h in
      clean-IsForeign w extras clean later e f

  pub hop_url : (w : Wire) → prepare_hop c x redirects u o ≡ ok w → w.url ≡ u
  unfolding prepare_hop
  hop_url w h =
      let (extras, e, f) = >>=-ok (jar_cookies c x u.url) _ h in
      let (map, g, same) =
        build_wire-parts c x u extras (scope_cookies redirects u.url (with_jar c extras o)) w f in
      ap (λ (v : Wire). v.url) same
