-- ===== src/Listener/Requests.antt =====
-- What host/listener/mod.rs reads from a request: the secrets it supplies and where it comes from.
-- The parsers of the crates it uses, and that of IP addresses, are arguments.
use agent_first_http.Prelude.{
  ℕ, Text, codes, Bool, true, false, not, ◌&&◌, ◌||◌, Option, none, some, List, [], ◌∷◌, leb, ◌==◌,
  if◌then◌else◌, text_eq, strip_prefix, eq_ignore_ascii_case, find_first, get, text_keys, ◌++◌,
}

-- `to_str` of a header's value; `Cookie::split_parse(s).flatten()`, as names and values; whether a text
-- parses as a loopback `IpAddr`.
pub record Parsers : Type 0 where
  pub to_str : Text → Option Text
  pub split_parse : Text → List (Text × Text)
  pub is_loopback_ip : Text → Bool

-- `headers` has the first value of each name, in lower case; `query` the parsed pairs; `over_unix` is
-- whether the request has the extension `ArrivedOverUnixSocket`.
pub record Request : Type 0 where
  pub path : Text
  pub query : Option (List (Text × Text))
  pub scheme : Option Text
  pub headers : List (Text × Text)
  pub over_unix : Bool

abbrev pub and_then {ℓ κ} : {A : Type ℓ} {B : Type κ} → Option A → (A → Option B) → Option B
and_then none f = none
and_then (some a) f = f a

abbrev pub or_else {ℓ} : {A : Type ℓ} → Option A → Option A → Option A
or_else none o = o
or_else (some a) o = some a

abbrev pub value_of : Option (Text × Text) → Option Text
value_of none = none
value_of (some (k, v)) = some v

-- `.find(|(key, _)| test(key)).map(|(_, value)| value)`
unfoldable pub find_value : (Text → Bool) → List (Text × Text) → Option Text
unfolding find_first
find_value test pairs = value_of (find_first (λ (p : Text × Text). test p.0) pairs)

abbrev pub takeover_handoff_cookie : Text
takeover_handoff_cookie = codes "afhttp_handoff"

unfoldable pub bearer_token : Parsers → Request → Option Text
bearer_token p req =
    and_then (and_then (get (codes "authorization") req.headers) p.to_str)
      (λ s. or_else (strip_prefix (codes "Bearer ") s) (strip_prefix (codes "bearer ") s))

unfoldable pub query_token : Request → Option Text
unfolding find_value
query_token req = and_then req.query (find_value (text_eq (codes "token_secret")))

unfoldable pub supplied_long_token : Parsers → Request → Option Text
supplied_long_token p req = or_else (bearer_token p req) (query_token req)

unfoldable pub query_handoff : Request → Option Text
unfolding find_value
query_handoff req =
    and_then req.query
      (find_value (λ key. text_eq key (codes "handoff_secret") || text_eq key (codes "handoff")))

unfoldable pub handoff_header : Parsers → Request → Option Text
handoff_header p req =
    and_then (and_then (get (codes "authorization") req.headers) p.to_str)
      (strip_prefix (codes "Handoff "))

unfoldable pub cookie_handoff : Parsers → Request → Option Text
unfolding find_value
cookie_handoff p req =
    and_then (and_then (get (codes "cookie") req.headers) p.to_str)
      (λ s. find_value (λ name. text_eq name takeover_handoff_cookie) (p.split_parse s))

unfoldable pub supplied_handoff : Parsers → Request → Option Text
supplied_handoff p req =
    or_else (handoff_header p req) (or_else (query_handoff req) (cookie_handoff p req))

-- The part before the first `c`, or all of it.
unfoldable pub until_char : ℕ → Text → Text
until_char c [] = []
until_char c (d ∷ s) = if d == c then [] else d ∷ until_char c s

-- `s.rsplit_once(c)`
unfoldable pub rsplit_once : ℕ → Text → Option (Text × Text)
rsplit_once c [] = none
rsplit_once c (d ∷ s) = elim (rsplit_once c s) [
  | some (a, b) ↦ some (d ∷ a, b)
  | none ↦ if d == c then some ([], s) else none
]

unfoldable pub all_digits : Text → Bool
all_digits [] = true
all_digits (c ∷ s) = (leb b'0' c && leb c b'9') && all_digits s

abbrev pub without_port : Text → Option (Text × Text) → Text
without_port authority none = authority
without_port authority (some (host, port)) = if all_digits port then host else authority

unfoldable pub is_loopback_authority : Parsers → Text → Bool
unfolding until_char rsplit_once all_digits
is_loopback_authority p authority =
    let host : Text = elim (strip_prefix (codes "[") authority) [
      | some bracketed ↦ until_char b']' bracketed
      | none ↦ without_port authority (rsplit_once b':' authority)
    ] in
    eq_ignore_ascii_case host (codes "localhost") || p.is_loopback_ip host

-- `is_some_and`
abbrev pub is_some_and {ℓ} : {A : Type ℓ} → Option A → (A → Bool) → Bool
is_some_and none f = false
is_some_and (some a) f = f a

abbrev pub is_own_site : Option Text → Bool
is_own_site none = false
is_own_site (some site) = text_eq site (codes "same-origin") || text_eq site (codes "none")

unfoldable pub is_origin_of : Text → Text → Bool
is_origin_of origin host =
    eq_ignore_ascii_case origin (codes "http://" ++ host)
    || eq_ignore_ascii_case origin (codes "https://" ++ host)

-- The test of the `Origin` header against the `Host` header.
unfoldable pub origin_fits : Option Text → Option (Option Text) → Bool
unfolding is_origin_of
origin_fits host none = true
origin_fits host (some (some origin)) = is_some_and host (is_origin_of origin)
origin_fits host (some none) = false

abbrev pub header_text : Parsers → Option Text → Option (Option Text)
header_text p none = none
header_text p (some v) = some (p.to_str v)

unfoldable pub reachable_without_token : Parsers → Request → Bool
reachable_without_token p req =
    let from_another_site =
      is_some_and (get (codes "sec-fetch-site") req.headers)
        (λ site. not (is_own_site (p.to_str site))) in
    let top_level =
      is_some_and (get (codes "sec-fetch-dest") req.headers) (text_eq (codes "document")) in
    let host = and_then (get (codes "host") req.headers) p.to_str in
    if from_another_site && not top_level
    then false
    else if is_some_and host (λ h. not (is_loopback_authority p h))
    then false
    else origin_fits host (header_text p (get (codes "origin") req.headers))

-- `v.trim()` of a header's text, where the one white space besides the blank is the tab.
unfoldable is_blank_char : ℕ → Bool
is_blank_char c = (c == 32) || (c == 9)

unfoldable trim_end : Text → Text
unfolding is_blank_char
trim_end [] = []
trim_end (c ∷ s) = elim (trim_end s) [
  | [] ↦ if is_blank_char c then [] else c ∷ []
  | d ∷ rest ↦ c ∷ d ∷ rest
]

unfoldable trim_blanks : Text → Text
unfolding is_blank_char trim_end
trim_blanks [] = []
trim_blanks (c ∷ s) = if is_blank_char c then trim_blanks s else trim_end (c ∷ s)

unfoldable pub request_scheme : Parsers → Request → Text
unfolding until_char trim_blanks
request_scheme p req = elim req.scheme [
  | some scheme ↦ scheme
  | none ↦ elim (and_then (get (codes "x-forwarded-proto") req.headers) p.to_str) [
    | none ↦ codes "http"
    | some v ↦
        if text_eq (trim_blanks (until_char b',' v)) (codes "https")
        then codes "https"
        else codes "http"
  ]
]

unfoldable pub request_is_https : Parsers → Request → Bool
unfolding request_scheme
request_is_https p req = text_eq (request_scheme p req) (codes "https")
