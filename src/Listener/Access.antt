-- ===== src/Listener/Access.antt =====
-- `token_middleware` of host/listener/mod.rs: which requests reach their handlers.
use agent_first_http.Prelude.{
  Text, codes, Bool, true, false, not, ◌&&◌, Option, none, some, List, if◌then◌else◌, text_eq,
  starts_with,
}
use agent_first_http.Listener.Secrets.{constant_time_eq}
use agent_first_http.Listener.Requests.{
  Parsers, Request, bearer_token, supplied_long_token, is_some_and, reachable_without_token,
}
use agent_first_http.Listener.Handoffs.{UiAccessToken, HandoffAuth, takeover_handoff_auth}

pub data HealthPublic : Type 0 where
  off minimal : HealthPublic

-- The part of `AppState` that the middleware reads.
pub record AppState : Type 0 where
  pub token : Option Text
  pub health_public : HealthPublic
  pub handoffs : List UiAccessToken

-- The answer, or the handler with the extensions that the request has by then: `authenticated` of
-- `AuthInfo`, and the handoff; and whether the handler's response gets the handoff's cookie.
pub data Decision : Type 0 where
  forbidden_origin : Decision
  unauthorized : Decision
  run_next :
      (authenticated : Bool) → (handoff : Option HandoffAuth) → (sets_cookie : Bool) → Decision

unfoldable pub is_takeover_display_path : Text → Bool
is_takeover_display_path path =
    starts_with (codes "/takeover/") path && not (text_eq path (codes "/takeover/handoff"))

abbrev pub is_minimal : HealthPublic → Bool
is_minimal off = false
is_minimal minimal = true

abbrev pub is_none {ℓ} : {A : Type ℓ} → Option A → Bool
is_none none = true
is_none (some _) = false

-- Whether the token of the host was supplied: `expected` and `supplied` are both there, and equal.
unfoldable pub knows_token : Option Text → Option Text → Bool
knows_token none supplied = false
knows_token (some expected) supplied = is_some_and supplied (λ t. constant_time_eq t expected)

-- The last answers on a takeover path: no token and no handoff was good.
abbrev pub without_credential : Option Text → Decision
without_credential (some _) = unauthorized
without_credential none = run_next false none false

abbrev pub with_handoff : AppState → Request → Option HandoffAuth → Decision
with_handoff s req (some handoff) =
    run_next true (some handoff) (starts_with (codes "/takeover/panel") req.path)
with_handoff s req none = without_credential s.token

-- The branch for `is_takeover_display_path`.
unfoldable pub admit_display : Parsers → AppState → Request → AppState × Decision
admit_display p s req =
    if knows_token s.token (bearer_token p req)
    then (s, run_next true none false)
    else let (handoffs, auth) = takeover_handoff_auth p req s.handoffs in
      (record s { handoffs = handoffs }, with_handoff s req auth)

-- The last part, for a host with a token.
abbrev pub admit_token : Text → Option Text → Decision
admit_token expected none = unauthorized
admit_token expected (some t) =
    if constant_time_eq t expected then run_next true none false else unauthorized

abbrev pub admit_health : Text → Option Text → Decision
admit_health expected none = run_next false none false
admit_health expected (some t) =
    if constant_time_eq t expected then run_next true none false else unauthorized

abbrev pub admit_expected : Parsers → AppState → Request → Option Text → Decision
admit_expected p s req none = run_next false none false
admit_expected p s req (some expected) =
    if text_eq req.path (codes "/health") && is_minimal s.health_public
    then admit_health expected (supplied_long_token p req)
    else admit_token expected (supplied_long_token p req)

unfoldable pub token_middleware : Parsers → AppState → Request → AppState × Decision
token_middleware p s req =
    if is_none s.token && (not req.over_unix && not (reachable_without_token p req))
    then (s, forbidden_origin)
    else if is_takeover_display_path req.path
    then admit_display p s req
    else (s, admit_expected p s req s.token)
