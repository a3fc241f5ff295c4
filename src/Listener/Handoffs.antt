-- ===== src/Listener/Handoffs.antt =====
-- The takeover credentials of host/listener/mod.rs. A credential is a `UiAccessToken` of another crate:
-- what it answers when it is asked is a field of it.
use agent_first_http.Prelude.{
  ℕ, Text, Bool, true, false, not, ◌&&◌, Option, none, some, List, [], ◌∷◌, ◌++◌, if◌then◌else◌,
  max, keep, find_first, length,
}
use agent_first_http.Errors.{Result, ok, err, new, internal_error}
use agent_first_http.Listener.Requests.{
  Parsers, Request, supplied_handoff, request_is_https, and_then,
}

pub record UiAccessToken : Type 0 where
  pub authorize : Text → Bool
  pub is_expired : Bool
  pub is_revoked : Bool
  pub remaining_ttl : Option ℕ

unfoldable pub is_live : UiAccessToken → Bool
is_live token = not token.is_expired && not token.is_revoked

pub record HandoffAuth : Type 0 where
  pub secret : Text
  pub remaining_s : ℕ
  pub secure_cookie : Bool

unfoldable pub issue_takeover_token :
    Result UiAccessToken → List UiAccessToken → List UiAccessToken × Result UiAccessToken
unfolding is_live
issue_takeover_token (err _) handoffs = (handoffs, err (new internal_error))
issue_takeover_token (ok token) handoffs = (keep is_live handoffs ++ token ∷ [], ok token)

-- `token.revoke()` on the first credential that knows the secret: its clones share the mark.
unfoldable pub revoke_first : Text → List UiAccessToken → List UiAccessToken
revoke_first secret [] = []
revoke_first secret (token ∷ rest) =
    if token.authorize secret
    then record token { is_revoked = true } ∷ rest
    else token ∷ revoke_first secret rest

unfoldable pub revoke_takeover_handoff : Text → List UiAccessToken → List UiAccessToken × Bool
unfolding is_live revoke_first
revoke_takeover_handoff secret handoffs =
    let live = keep is_live handoffs in
    elim (find_first (λ (token : UiAccessToken). token.authorize secret) live) [
      | none ↦ (live, false)
      | some token ↦ (keep is_live (revoke_first secret live), true)
    ]

-- `remaining_ttl()?.as_secs().max(1)`
abbrev pub handoff_auth : Parsers → Request → Text → UiAccessToken → Option HandoffAuth
handoff_auth p req secret token = and_then token.remaining_ttl (λ s.
    some
      (record { secret = secret; remaining_s = max s 1; secure_cookie = request_is_https p req }))

-- The list is left with its live credentials, if a secret was supplied at all.
unfoldable pub takeover_handoff_auth :
    Parsers → Request → List UiAccessToken → List UiAccessToken × Option HandoffAuth
unfolding is_live
takeover_handoff_auth p req handoffs = elim (supplied_handoff p req) [
  | none ↦ (handoffs, none)
  | some secret ↦
      let live = keep is_live handoffs in
      (
        live,
        and_then (find_first (λ (token : UiAccessToken). token.authorize secret) live)
            (handoff_auth p req secret),
      )
]

unfoldable pub has_live_takeover_credentials : List UiAccessToken → List UiAccessToken × Bool
unfolding is_live
has_live_takeover_credentials handoffs =
    let live = keep is_live handoffs in (live, elim live [ [] ↦ false | token ∷ rest ↦ true ])

unfoldable pub revoke_takeover_handoffs : List UiAccessToken → List UiAccessToken × ℕ
revoke_takeover_handoffs handoffs = ([], length handoffs)
