-- ===== src/Request/Options.antt =====
-- `PreparedRequestOptions` of sdk/fetch/pipeline/request_opts.rs: the headers, cookies and body of a
-- request, from what the caller gave.
use agent_first_http.Prelude.{
  ℕ, Text, codes, Bool, true, false, not, ◌&&◌, Option, none, some, List, [], ◌∷◌, ◌++◌,
  if◌then◌else◌, text_eq, any, member, text_keys, put, keep, ℤ,
}
use agent_first_http.Errors.{new, invalid_argument, Result, ok, err, ◌>>=◌, ◌>>◌}
use agent_first_http.Cookies.Scope.{Url}
use agent_first_http.Cookies.Entry.{Cookie}
use agent_first_http.Request.Values.{
  PreparedCookie, Wiring, prepare_cookie, cookie_is_expired, effective_cookie_secure,
  validate_cookie_scope,
}

pub data BodyPayload : Type 0 where
  none_ : BodyPayload
  bytes : List ℕ → BodyPayload
  form : List (Text × Text) → BodyPayload

pub record PreparedHeader : Type 0 where
  pub name : Text
  pub value : Text

pub record PreparedRequestOptions : Type 0 where
  pub headers : List PreparedHeader
  pub user_agent : Option Text
  pub raw_cookie_header : Option Text
  pub cookies : List PreparedCookie
  pub raw_cookie_pairs : List PreparedCookie
  pub evaluate_after_wait : List Text
  pub method : Text
  pub body_payload : BodyPayload

-- `builder.request`: a cookie comes with its attribute `Partitioned`, and `split_cookies` are those of a
-- `Cookie` header, each parsed or not.
pub record Modifiers : Type 0 where
  pub headers : List (Text × Text)
  pub user_agent : Option Text
  pub cookies : List (Option Bool × Cookie)
  pub evaluate_after_wait : List Text
  pub method : Option Text
  pub body : Option (List ℕ)
  pub form : List (Text × Text)
  pub split_cookies : Text → List (Option (Option Bool × Cookie))

unfoldable pub parse_header : Wiring → Text → Text → Result (Text × Text)
parse_header w name value = elim (w.header_name name) [
  | none ↦ err (new invalid_argument)
  | some n ↦ if w.is_header_value value then ok (n, value) else err (new invalid_argument)
]

-- The headers read so far: those kept, and the two that are held apart.
pub record Sorted : Type 0 where
  pub kept : List PreparedHeader
  pub agent : Option Text
  pub raw : Option Text

abbrev pub set_once : Option Text → Text → Result (Option Text)
set_once none v = ok (some v)
set_once (some _) v = err (new invalid_argument)

unfoldable pub sort_header : Sorted → Text → Text → Result Sorted
sort_header s name value =
    if text_eq name (codes "user-agent")
    then set_once s.agent value >>= (λ a. ok (record s { agent = a }))
    else if text_eq name (codes "cookie")
    then set_once s.raw value >>= (λ r. ok (record s { raw = r }))
    else ok (record s { kept = s.kept ++ record { name = name; value = value } ∷ [] })

-- The loop over the headers.
unfoldable pub sort_headers : Wiring → List (Text × Text) → Sorted → Result Sorted
unfolding parse_header sort_header
sort_headers w [] s = ok s
sort_headers w ((n, v) ∷ rest) s =
    parse_header w n v >>= λ (h : Text × Text). sort_header s h.0 h.1 >>= sort_headers w rest

abbrev pub choose_agent : Wiring → Option Text → Option Text → Result (Option Text)
choose_agent w none from_header = ok from_header
choose_agent w (some _) (some _) = err (new invalid_argument)
choose_agent w (some v) none =
    parse_header w (codes "User-Agent") v >>= λ (h : Text × Text). ok (some v)

unfoldable pub prepare_cookies :
    Wiring → ℤ → List (Option Bool × Cookie) → Result (List PreparedCookie)
prepare_cookies w now [] = ok []
prepare_cookies w now ((p, c) ∷ rest) = prepare_cookie w now p c >>= λ (a : PreparedCookie).
    prepare_cookies w now rest >>= λ (others : List PreparedCookie). ok (a ∷ others)

unfoldable pub parse_cookie_header :
    Wiring → ℤ → List (Option (Option Bool × Cookie)) → Result (List PreparedCookie)
parse_cookie_header w now [] = ok []
parse_cookie_header w now (none ∷ rest) = err (new invalid_argument)
parse_cookie_header w now (some (p, c) ∷ rest) =
    prepare_cookie w now p c >>= λ (a : PreparedCookie).
    parse_cookie_header w now rest >>= λ (others : List PreparedCookie). ok (a ∷ others)

abbrev pub is_nil {ℓ} : {A : Type ℓ} → List A → Bool
is_nil [] = true
is_nil (x ∷ xs) = false

-- A `Cookie` header and cookies of their own exclude one another.
abbrev pub one_source : Option Text → List (Option Bool × Cookie) → Result (Unit {0})
one_source (some _) (c ∷ cs) = err (new invalid_argument)
one_source _ _ = ok tt

abbrev pub choose_body : Option (List ℕ) → List (Text × Text) → Result BodyPayload
choose_body (some b) (f ∷ fs) = err (new invalid_argument)
choose_body (some b) [] = ok (bytes b)
choose_body none [] = ok none_
choose_body none (f ∷ fs) = ok (form (f ∷ fs))

abbrev pub raw_pairs : Wiring → ℤ → Modifiers → Option Text → Result (List PreparedCookie)
raw_pairs w now m none = ok []
raw_pairs w now m (some v) = parse_cookie_header w now (m.split_cookies v)

abbrev pub method_or_get : Option Text → Text
method_or_get none = codes "GET"
method_or_get (some m) = m

unfoldable pub from_builder : Wiring → ℤ → Modifiers → Result PreparedRequestOptions
unfolding sort_headers prepare_cookies
from_builder w now m = do
  sorted ← sort_headers w m.headers (record { kept = []; agent = none; raw = none })
  agent ← choose_agent w m.user_agent sorted.agent
  one_source sorted.raw m.cookies
  cookies ← prepare_cookies w now m.cookies
  pairs ← raw_pairs w now m sorted.raw
  body ← choose_body m.body m.form
  ok (record {
    headers = sorted.kept;
    user_agent = agent;
    raw_cookie_header = sorted.raw;
    cookies = cookies;
    raw_cookie_pairs = pairs;
    evaluate_after_wait = m.evaluate_after_wait;
    method = w.to_uppercase (method_or_get m.method);
    body_payload = body;
  })

unfoldable pub insert_headers : List PreparedHeader → List (Text × Text) → List (Text × Text)
insert_headers [] headers = headers
insert_headers (h ∷ rest) headers = insert_headers rest (put h.name h.value headers)

abbrev pub put_some : Text → Option Text → List (Text × Text) → List (Text × Text)
put_some name none headers = headers
put_some name (some v) headers = put name v headers

-- The pairs that go into the header: those in scope, or an error; not those for https alone elsewhere,
-- and none that has expired.
unfoldable pub cookie_pairs : ℤ → Url → List PreparedCookie → Result (List Text)
cookie_pairs now url [] = ok []
cookie_pairs now url (c ∷ rest) =
    validate_cookie_scope c url
    >> (cookie_pairs now url rest >>= λ (pairs : List Text).
        if effective_cookie_secure c && not (text_eq url.scheme (codes "https"))
        then ok pairs
        else if cookie_is_expired now c
        then ok pairs
        else ok ((c.name ++ b'=' ∷ c.value) ∷ pairs))

-- `pairs.join("; ")`
unfoldable pub join_pairs : List Text → Text
join_pairs [] = []
join_pairs (p ∷ []) = p
join_pairs (p ∷ q ∷ rest) = p ++ codes "; " ++ join_pairs (q ∷ rest)

abbrev pub joined_header : Wiring → List Text → Result (Option Text)
joined_header w [] = ok none
joined_header w (p ∷ ps) =
    if w.is_header_value (join_pairs (p ∷ ps))
    then ok (some (join_pairs (p ∷ ps)))
    else err (new invalid_argument)

unfoldable pub cookie_header_for_url : Wiring → ℤ → List PreparedCookie → Url → Result (Option Text)
unfolding cookie_pairs join_pairs
cookie_header_for_url w now cookies url =
    cookie_pairs now url cookies >>= λ (pairs : List Text). joined_header w pairs

abbrev pub cookie_value :
    Wiring → ℤ → PreparedRequestOptions → Option Text → Url → Result (Option Text)
cookie_value w now o (some raw) url = ok (some raw)
cookie_value w now o none url = cookie_header_for_url w now o.cookies url

unfoldable pub http_header_map :
    Wiring → ℤ → PreparedRequestOptions → Url → Result (List (Text × Text))
unfolding insert_headers cookie_header_for_url
http_header_map w now o url =
    cookie_value w now o o.raw_cookie_header url >>= λ (cookie : Option Text). ok (
      put_some (codes "cookie") cookie
        (put_some (codes "user-agent") o.user_agent (insert_headers o.headers [])))

unfoldable pub names_of : List PreparedCookie → List Text
names_of [] = []
names_of (c ∷ cs) = c.name ∷ names_of cs

-- A caller's `Cookie` header takes the jar's cookies of other names, one by one.
unfoldable pub join_jar :
    Wiring
    → List Text
    → List PreparedCookie
    → Text
    → List PreparedCookie
    → Text × List PreparedCookie
join_jar w existing [] raw pairs = (raw, pairs)
join_jar w existing (c ∷ rest) raw pairs =
    let joined = raw ++ codes "; " ++ c.name ++ b'=' ∷ c.value in
    let taken = not (member c.name existing) && w.is_header_value joined in
    join_jar w existing rest (if taken then joined else raw)
      (if taken then pairs ++ c ∷ [] else pairs)

abbrev pub merge_into :
    Wiring → PreparedRequestOptions → List PreparedCookie → Option Text → PreparedRequestOptions
merge_into w o extras (some raw) =
    let (raw', pairs) = join_jar w (names_of o.raw_cookie_pairs) extras raw o.raw_cookie_pairs in
    record o { raw_cookie_header = some raw'; raw_cookie_pairs = pairs }
merge_into w o extras none = record o {
  cookies = o.cookies ++ keep (λ c. not (member c.name (names_of o.cookies))) extras;
}

unfoldable pub merge_jar_cookies :
    Wiring → List PreparedCookie → PreparedRequestOptions → PreparedRequestOptions
unfolding join_jar names_of
merge_jar_cookies w extras o = merge_into w o extras o.raw_cookie_header

unfoldable pub is_origin_scoped_header : Text → Bool
is_origin_scoped_header name = any (text_eq name) (
    codes "authorization"
    ∷ codes "proxy-authorization"
    ∷ codes "cookie"
    ∷ codes "cookie2"
    ∷ codes "host"
    ∷ codes "www-authenticate"
    ∷ [])
