-- ===== src/Request/Redirects.antt =====
-- sdk/fetch/pipeline/http_only.rs: `send_http_response`, which follows redirects itself when there is a
-- cookie jar, and `persist_set_cookies` of sdk/fetch/pipeline/cookie_jar_resolve.rs. Each hop has an
-- exchange: what the server and the files answer there.
use agent_first_http.Prelude.{
  ℕ, zero, suc, ◌+◌, Text, codes, Bool, true, false, not, ◌&&◌, ◌||◌, Option, none, some, List, [],
  ◌∷◌, ltb, ◌==◌, if◌then◌else◌, text_eq, any, keep, ℤ,
}
use agent_first_http.Errors.{
  new, invalid_argument, io_error, internal_error, Result, ok, err, ◌>>=◌,
}
use agent_first_http.Cookies.Scope.{Url, HostNames}
use agent_first_http.Cookies.Entry.{Cookie, JarEntry}
use agent_first_http.Cookies.Jar.{
  CookieJar, ReadOutcome, PersistIo, load, applicable_cookies, merge_response, persist,
}
use agent_first_http.Request.Values.{PreparedCookie, Wiring, prepare_cookie, in_cookie_scope}
use agent_first_http.Request.Options.{
  BodyPayload, none_, PreparedRequestOptions, http_header_map, merge_jar_cookies,
  is_origin_scoped_header,
}

-- A URL with its port, or that of its scheme.
pub record HopUrl : Type 0 where
  pub url : Url
  pub port : Option ℕ

abbrev pub eq_host : Option Text → Option Text → Bool
eq_host none none = true
eq_host (some a) (some b) = text_eq a b
eq_host _ _ = false

abbrev pub eq_port : Option ℕ → Option ℕ → Bool
eq_port none none = true
eq_port (some a) (some b) = a == b
eq_port _ _ = false

-- `a.origin() == b.origin()`, where one of the two is an http or https URL.
unfoldable pub same_origin : HopUrl → HopUrl → Bool
same_origin a b =
    text_eq a.url.scheme b.url.scheme && (eq_host a.url.host b.url.host && eq_port a.port b.port)

-- `location` is the URL that the header joins to, or nothing where it is not a text or joins to none.
pub record Response : Type 0 where
  pub status : ℕ
  pub set_cookies : List Text
  pub location : Option (Option HopUrl)

pub record Exchange : Type 0 where
  pub now : ℤ
  pub jar_file : ReadOutcome
  pub response : Result Response
  pub write_file : ReadOutcome
  pub locked_file : ReadOutcome
  pub write_io : PersistIo

-- What the code asks of its crates; `in_range` is which times a cookie can have.
pub record Client : Type 0 where
  pub wiring : Wiring
  pub names : HostNames
  pub in_range : ℤ → Bool
  pub parse_cookie : Text → Option Cookie
  pub has_jar : Bool

-- What was sent: `jar` are the cookies that the jar had for the URL.
pub record Wire : Type 0 where
  pub url : HopUrl
  pub method : Text
  pub headers : List (Text × Text)
  pub body : BodyPayload
  pub jar : List PreparedCookie
  pub sent_at : ℤ

-- The loop over the `Set-Cookie` lines.
unfoldable pub merge_lines : Client → Url → ℤ → List Text → CookieJar → CookieJar
merge_lines c url now [] jar = jar
merge_lines c url now (line ∷ rest) jar = merge_lines c url now rest (elim (c.parse_cookie line) [
  | none ↦ jar
  | some cookie ↦ (merge_response c.names cookie url now jar).1
])

unfoldable pub persist_set_cookies : Client → Exchange → Url → List Text → Result (Unit {0})
unfolding merge_lines
persist_set_cookies c x url [] = ok tt
persist_set_cookies c x url (line ∷ rest) = load x.write_file >>= λ (jar : CookieJar).
    persist x.write_io x.locked_file x.now (merge_lines c url x.now (line ∷ rest) jar)
    >>= λ (written : List JarEntry). ok tt

-- The jar's cookies that can be sent.
unfoldable pub sendable : Wiring → ℤ → List Cookie → List PreparedCookie
sendable w now [] = []
sendable w now (c ∷ cs) =
    let rest = sendable w now cs in
    elim (prepare_cookie w now none c) [ err _ ↦ rest | ok p ↦ p ∷ rest ]

-- The jar's cookies for a URL; none without a jar.
unfoldable pub jar_cookies : Client → Exchange → Url → Result (List PreparedCookie)
unfolding sendable
jar_cookies c x url =
    if c.has_jar
    then (load x.jar_file >>= λ (jar : CookieJar).
        ok (sendable c.wiring x.now (applicable_cookies c.in_range jar url x.now)))
    else ok []

abbrev pub with_jar : Client → List PreparedCookie → PreparedRequestOptions → PreparedRequestOptions
with_jar c extras o = if c.has_jar then merge_jar_cookies c.wiring extras o else o

-- After a redirect, cookies that are out of scope are left out.
unfoldable pub scope_cookies : ℕ → Url → PreparedRequestOptions → PreparedRequestOptions
scope_cookies redirects url o =
    if ltb 0 redirects
    then record o { cookies = keep (λ c. in_cookie_scope c url) o.cookies }
    else o

-- The request with its headers.
unfoldable pub build_wire :
    Client → Exchange → HopUrl → List PreparedCookie → PreparedRequestOptions → Result Wire
build_wire c x u extras opts =
    if c.wiring.is_method opts.method
    then (http_header_map c.wiring x.now opts u.url >>= λ (headers : List (Text × Text)).
        ok (record {
          url = u;
          method = opts.method;
          headers = headers;
          body = opts.body_payload;
          jar = extras;
          sent_at = x.now;
        }))
    else err (new invalid_argument)

-- The request of a hop.
unfoldable pub prepare_hop : Client → Exchange → ℕ → HopUrl → PreparedRequestOptions → Result Wire
prepare_hop c x redirects u o = jar_cookies c x u.url >>= λ (extras : List PreparedCookie).
    build_wire c x u extras (scope_cookies redirects u.url (with_jar c extras o))

unfoldable pub is_redirect : ℕ → Bool
is_redirect status =
    status == 301 || (status == 302 || (status == 303 || (status == 307 || status == 308)))

unfoldable pub leave_origin : HopUrl → HopUrl → PreparedRequestOptions → PreparedRequestOptions
leave_origin u next o =
    if not (same_origin u next)
    then record o {
      headers = keep (λ h. not (is_origin_scoped_header h.name)) o.headers;
      raw_cookie_header = none;
      raw_cookie_pairs = [];
      cookies = [];
    }
    else o

abbrev pub body_headers : List Text
body_headers =
    codes "content-type"
    ∷ codes "content-encoding"
    ∷ codes "content-length"
    ∷ codes "transfer-encoding"
    ∷ []

unfoldable pub becomes_get : ℕ → Text → Bool
becomes_get status method =
    ((status == 301 || status == 302) && text_eq method (codes "POST"))
    || (status == 303 && not (text_eq method (codes "HEAD")))

unfoldable pub change_method : ℕ → PreparedRequestOptions → PreparedRequestOptions
change_method status o =
    if becomes_get status o.method
    then record o {
      method = codes "GET";
      body_payload = none_;
      headers = keep (λ h. not (any (text_eq h.name) body_headers)) o.headers;
    }
    else o

abbrev pub is_web : HopUrl → Bool
is_web u = text_eq u.url.scheme (codes "http") || text_eq u.url.scheme (codes "https")

pub data Next : Type 0 where
  done : Result Response → Next
  follow : HopUrl → PreparedRequestOptions → Next

abbrev pub follow_to : ℕ → HopUrl → PreparedRequestOptions → Option HopUrl → Next
follow_to status u o none = done (err (new io_error))
follow_to status u o (some next) =
    if is_web next
    then follow next (change_method status (leave_origin u next o))
    else done (err (new io_error))

abbrev pub after_cookies :
    ℕ → HopUrl → PreparedRequestOptions → Response → Option (Option HopUrl) → Next
after_cookies redirects u o r none = done (ok r)
after_cookies redirects u o r (some location) =
    if redirects == 10 then done (err (new io_error)) else follow_to r.status u o location

-- What the loop does with a response.
unfoldable pub next_hop :
    Client → Exchange → ℕ → HopUrl → PreparedRequestOptions → Result Response → Next
unfolding is_redirect
next_hop c x redirects u o (err e) = done (err e)
next_hop c x redirects u o (ok r) =
    if not c.has_jar then done (ok r) else elim (persist_set_cookies c x u.url r.set_cookies) [
      | err e ↦ done (err e)
      | ok _ ↦
          if not (is_redirect r.status)
          then done (ok r)
          else after_cookies redirects u o r r.location
    ]

-- The rest of a round of the loop, by what came of its parts; `again` makes the next one.
abbrev pub after_next :
    (HopUrl → PreparedRequestOptions → Result Response × List Wire)
    → Wire
    → Next
    → Result Response × List Wire
after_next again wire (done r) = (r, wire ∷ [])
after_next again wire (follow next o') = let rest = again next o' in (rest.0, wire ∷ rest.1)

abbrev pub after_prepare :
    (HopUrl → PreparedRequestOptions → Result Response × List Wire)
    → Client
    → Exchange
    → ℕ
    → HopUrl
    → PreparedRequestOptions
    → Result Wire
    → Result Response × List Wire
after_prepare again c x redirects u o (err e) = (err e, [])
after_prepare again c x redirects u o (ok wire) =
    after_next again wire (next_hop c x redirects u o x.response)

-- `left` are the rounds that are left of `for redirects in 0..=10`: the result, and what was sent, in
-- order.
unfoldable pub send_hops :
    Client → (ℕ → Exchange) → ℕ → ℕ → HopUrl → PreparedRequestOptions → Result Response × List Wire
send_hops c exchange zero redirects u o = (err (new internal_error), [])
send_hops c exchange (suc left) redirects u o =
    after_prepare (send_hops c exchange left (redirects + 1)) c (exchange redirects) redirects u o
      (prepare_hop c (exchange redirects) redirects u o)

unfoldable pub send_http_response :
    Client → (ℕ → Exchange) → HopUrl → PreparedRequestOptions → Result Response × List Wire
unfolding send_hops
send_http_response c exchange u o = send_hops c exchange 11 0 u o
