-- ===== src/Listener/Tests.antt =====
-- Access to the host at concrete requests.
use agent_first_http.Prelude.{
  ◌≡◌, refl, ◌⊎◌, codes, true, false, none, some, [], ◌∷◌, text_eq, strip_prefix, starts_with, get,
  text_keys, eq_ignore_ascii_case, to_ascii_lowercase, keep, find_first,
}
use agent_first_http.Listener.Secrets.{constant_time_eq}
use agent_first_http.Listener.Requests.{
  Parsers, Request, bearer_token, query_token, supplied_long_token, supplied_handoff,
  reachable_without_token, is_loopback_authority, query_handoff, handoff_header, origin_fits,
  request_is_https, request_scheme,
}
use agent_first_http.Listener.Handoffs.{UiAccessToken, takeover_handoff_auth}
use agent_first_http.Listener.Access.{
  AppState, minimal, forbidden_origin, unauthorized, run_next, is_none, is_takeover_display_path,
  knows_token, admit_display, token_middleware,
}
use agent_first_http.Listener.Admission.{Credential, token_middleware-Credential}
use agent_first_http.Listener.Origins.{IsLocal, token_middleware-IsLocal}

abbrev parsers : Parsers
parsers = record {
  to_str = λ v. some v;
  split_parse = λ v. [];
  is_loopback_ip = text_eq (codes "127.0.0.1");
}

abbrev panel_pass : UiAccessToken
panel_pass = record {
  authorize = text_eq (codes "p1");
  is_expired = false;
  is_revoked = false;
  remaining_ttl = some 0;
}

abbrev guarded : AppState
guarded = record {
  token = some (codes "s3");
  health_public = minimal;
  handoffs =
      record panel_pass { is_revoked = true; authorize = text_eq (codes "p0") } ∷ panel_pass ∷ [];
}

abbrev unguarded : AppState
unguarded = record guarded { token = none }

abbrev plain : Request
plain = record {
  path = codes "/cdp";
  query = none;
  scheme = none;
  headers = (codes "host", codes "127.0.0.1:4000") ∷ [];
  over_unix = false;
}

abbrev with_bearer : Request
with_bearer = record plain { headers = (codes "authorization", codes "Bearer s3") ∷ [] }

abbrev panel : Request
panel = record plain {
  path = codes "/takeover/panel/";
  query = some ((codes "handoff_secret", codes "p1") ∷ []);
  headers = (codes "x-forwarded-proto", codes "https , http") ∷ [];
}

abbrev page : Request
page = record plain {
  headers =
      (codes "host", codes "127.0.0.1:4000") ∷ (codes "origin", codes "https://evil.example") ∷ [];
}

loopback_names :
    (is_loopback_authority parsers (codes "LocalHost:80") ≡ true)
    × (is_loopback_authority parsers (codes "127.0.0.1") ≡ true)
    × (is_loopback_authority parsers (codes "evil.example:80") ≡ false)
    × (is_loopback_authority parsers (codes "localhost:x") ≡ false)
unfolding is_loopback_authority strip_prefix text_eq eq_ignore_ascii_case to_ascii_lowercase
loopback_names = (refl, refl, refl, refl)

page_refused : (token_middleware parsers unguarded page).1 ≡ forbidden_origin
unfolding token_middleware reachable_without_token is_loopback_authority strip_prefix text_eq
    eq_ignore_ascii_case to_ascii_lowercase get origin_fits
page_refused = refl

plain_admitted : (token_middleware parsers unguarded plain).1 ≡ run_next false none false
unfolding token_middleware reachable_without_token is_loopback_authority strip_prefix text_eq
    eq_ignore_ascii_case to_ascii_lowercase get origin_fits is_takeover_display_path starts_with
plain_admitted = refl

no_token_refused : (token_middleware parsers guarded plain).1 ≡ unauthorized
unfolding token_middleware is_takeover_display_path starts_with strip_prefix text_eq
    supplied_long_token bearer_token query_token get
no_token_refused = refl

panel_admitted :
    (token_middleware parsers guarded panel).1
    ≡ run_next true
        (some (record { secret = codes "p1"; remaining_s = 1; secure_cookie = true }))
        true
unfolding token_middleware is_takeover_display_path starts_with strip_prefix text_eq admit_display
    knows_token bearer_token get takeover_handoff_auth supplied_handoff handoff_header query_handoff
    find_first keep request_is_https request_scheme
panel_admitted = refl

panel_no_bearer :
    (panel.path ≡ codes "/takeover/panel/") × (constant_time_eq (codes "s3") (codes "s4") ≡ false)
unfolding constant_time_eq
panel_no_bearer = (refl, refl)

token_middleware-Credential_example :
    Credential parsers guarded panel true
      (some (record { secret = codes "p1"; remaining_s = 1; secure_cookie = true }))
    × ((is_none guarded.token ≡ false)
        ⊎ ((panel.over_unix ≡ true) ⊎ (reachable_without_token parsers panel ≡ true)))
token_middleware-Credential_example =
    token_middleware-Credential parsers guarded panel panel_admitted

bearer_supplied : bearer_token parsers with_bearer ≡ some (codes "s3")
unfolding bearer_token get text_eq strip_prefix
bearer_supplied = refl

token_middleware-IsLocal_example : (plain.over_unix ≡ true) ⊎ IsLocal parsers plain
token_middleware-IsLocal_example =
    token_middleware-IsLocal parsers unguarded plain plain_admitted refl
