-- ===== src/Listener/Admission.antt =====
-- Which credential a request had that reached its handler.
use agent_first_http.Prelude.{
  ℕ, ◌≡◌, refl, ap, subst, ◌∙◌, ◌⊎◌, inl, inr, Text, codes, Bool, true, false, not, ◌&&◌, Option,
  none, some, List, [], ◌∷◌, text_eq, text_eq_iff, any, keep, find_first, Bool-cases, arith, max,
}
use agent_first_http.Listener.Secrets.{constant_time_eq, constant_time_eq_iff}
use agent_first_http.Listener.Requests.{
  Parsers, Request, bearer_token, supplied_long_token, supplied_handoff, reachable_without_token,
  and_then, request_is_https,
}
use agent_first_http.Listener.Handoffs.{
  UiAccessToken, HandoffAuth, takeover_handoff_auth, is_live, handoff_auth,
}
use agent_first_http.Listener.Access.{
  HealthPublic, off, minimal, AppState, Decision, forbidden_origin, unauthorized, run_next,
  is_takeover_display_path, knows_token, with_handoff, without_credential, admit_display,
  admit_token, admit_health, admit_expected, token_middleware, is_minimal, is_none,
}

-- What lets a request in: the token of the host, which only a header can carry to a takeover page; a
-- live credential for a takeover page; the public health check; or that the host has no token.
pub data Credential (p : Parsers) (s : AppState) (req : Request) (authenticated : Bool)
    (handoff : Option HandoffAuth) : Type 0 where
  by_token :
      (t : Text)
      → s.token ≡ some t
      → supplied_long_token p req ≡ some t
      → (is_takeover_display_path req.path ≡ false) ⊎ (bearer_token p req ≡ some t)
      → authenticated ≡ true
      → handoff ≡ none
      → Credential p s req authenticated handoff
  by_handoff :
      (a : HandoffAuth)
      → is_takeover_display_path req.path ≡ true
      → supplied_handoff p req ≡ some a.secret
      → any (λ (c : UiAccessToken). is_live c && c.authorize a.secret) s.handoffs ≡ true
      → authenticated ≡ true
      → handoff ≡ some a
      → Credential p s req authenticated handoff
  by_health :
      req.path ≡ codes "/health"
      → s.health_public ≡ minimal
      → supplied_long_token p req ≡ none
      → authenticated ≡ false
      → handoff ≡ none
      → Credential p s req authenticated handoff
  by_open_host :
      s.token ≡ none
      → authenticated ≡ false
      → handoff ≡ none
      → Credential p s req authenticated handoff

abbrev Explained : Parsers → AppState → Request → Decision → Type 0
Explained p s req forbidden_origin = Unit
Explained p s req unauthorized = Unit
Explained p s req (run_next auth handoff c) = Credential p s req auth handoff

knows_token_sound :
    (token supplied : Option Text)
    → knows_token token supplied ≡ true
    → (t : Text) × (token ≡ some t) × (supplied ≡ some t)
unfolding knows_token
knows_token_sound none supplied h = cc
knows_token_sound (some t) none h = cc
knows_token_sound (some t) (some u) h =
    (t, refl, ap (λ (x : Text). some x) ((constant_time_eq_iff u t).0 h))

-- The first live credential that knows a secret is in the list.
found_live :
    (secret : Text) (handoffs : List UiAccessToken) (token : UiAccessToken)
    → find_first (λ (c : UiAccessToken). c.authorize secret) (keep is_live handoffs) ≡ some token
    → any (λ (c : UiAccessToken). is_live c && c.authorize secret) handoffs ≡ true
unfolding find_first keep any
found_live secret [] token h = cc
found_live secret (c ∷ rest) token h = ground (arith, found_live secret rest token)

is_minimal_sound : (h : HealthPublic) → is_minimal h ≡ true → h ≡ minimal
is_minimal_sound off e = cc
is_minimal_sound minimal e = refl

one_of : (a b : Bool) → (not a && not b) ≡ false → (a ≡ true) ⊎ (b ≡ true)
one_of true b h = inl refl
one_of false b h = inr (ground arith)

module _ (p : Parsers) (s : AppState) (req : Request) where
  no_credential :
      (token : Option Text) → s.token ≡ token → Explained p s req (without_credential token)
  no_credential (some t) e = tt
  no_credential none e = by_open_host e refl refl

  -- The credential with the time that it has left, if it has any.
  timed-Explained :
      (secret : Text) (ttl : Option ℕ)
      → is_takeover_display_path req.path ≡ true
      → supplied_handoff p req ≡ some secret
      → any (λ (c : UiAccessToken). is_live c && c.authorize secret) s.handoffs ≡ true
      → Explained p s req (
          with_handoff s req (
            and_then ttl (λ (n : ℕ). some (record {
              secret = secret;
              remaining_s = max n 1;
              secure_cookie = request_is_https p req;
            }))))
  timed-Explained secret none d sup live = no_credential s.token refl
  timed-Explained secret (some n) d sup live = by_handoff _ d sup live refl refl

  handoff-Explained :
      (secret : Text) (found : Option UiAccessToken)
      → is_takeover_display_path req.path ≡ true
      → supplied_handoff p req ≡ some secret
      → find_first (λ (c : UiAccessToken). c.authorize secret) (keep is_live s.handoffs) ≡ found
      → Explained p s req (with_handoff s req (and_then found (handoff_auth p req secret)))
  handoff-Explained secret none d sup e = no_credential s.token refl
  handoff-Explained secret (some token) d sup e =
      timed-Explained secret token.remaining_ttl d sup (found_live secret s.handoffs token e)

  supplied-Explained :
      (supplied : Option Text)
      → is_takeover_display_path req.path ≡ true
      → supplied_handoff p req ≡ supplied
      → Explained p s req (with_handoff s req (takeover_handoff_auth p req s.handoffs).1)
  unfolding takeover_handoff_auth
  supplied-Explained none d e = rw (e, takeover_handoff_auth) (no_credential s.token refl)
  supplied-Explained (some secret) d e =
      rw (e, takeover_handoff_auth)
        (handoff-Explained secret
          (find_first (λ (c : UiAccessToken). c.authorize secret) (keep is_live s.handoffs)) d e
          refl)

  by_bearer :
      is_takeover_display_path req.path ≡ true
      → (t : Text) × (s.token ≡ some t) × (bearer_token p req ≡ some t)
      → Credential p s req true none
  unfolding supplied_long_token
  by_bearer d (t, e, b) = by_token t e (rw b refl) (inr b) refl refl

  display-Explained :
      is_takeover_display_path req.path ≡ true → Explained p s req (admit_display p s req).1
  unfolding admit_display
  display-Explained d = elim (Bool-cases (knows_token s.token (bearer_token p req))) [
    | inl k ↦ rw k (by_bearer d (knows_token_sound s.token (bearer_token p req) k))
    | inr k ↦ rw k (supplied-Explained (supplied_handoff p req) d refl)
  ]

  -- The comparison of the token that was supplied with the one expected.
  token-Explained :
      (t : Text) (supplied : Option Text)
      → s.token ≡ some t
      → supplied_long_token p req ≡ supplied
      → is_takeover_display_path req.path ≡ false
      → Explained p s req (admit_token t supplied)
  token-Explained t none e sup d = tt
  token-Explained t (some u) e sup d = elim (Bool-cases (constant_time_eq u t)) [
    | inl same ↦ rw same (
        by_token t e (sup ∙ ap (λ (x : Text). some x) ((constant_time_eq_iff u t).0 same)) (inl d)
          refl refl)
    | inr other ↦ rw other tt
  ]

  health-Explained :
      (t : Text) (supplied : Option Text)
      → s.token ≡ some t
      → supplied_long_token p req ≡ supplied
      → is_takeover_display_path req.path ≡ false
      → text_eq req.path (codes "/health") ≡ true
      → s.health_public ≡ minimal
      → Explained p s req (admit_health t supplied)
  health-Explained t none e sup d path h =
      by_health ((text_eq_iff req.path (codes "/health")).0 path) h sup refl refl
  health-Explained t (some u) e sup d path h = token-Explained t (some u) e sup d

  expected-Explained :
      (token : Option Text)
      → s.token ≡ token
      → is_takeover_display_path req.path ≡ false
      → Explained p s req (admit_expected p s req token)
  expected-Explained none e d = by_open_host e refl refl
  expected-Explained (some t) e d =
      elim (Bool-cases (text_eq req.path (codes "/health") && is_minimal s.health_public)) [
        | inl h ↦ rw h (
            health-Explained t (supplied_long_token p req) e refl d (ground arith)
              (is_minimal_sound s.health_public (ground arith)))
        | inr h ↦ rw h (token-Explained t (supplied_long_token p req) e refl d)
      ]

  middleware-Explained : Explained p s req (token_middleware p s req).1
  unfolding token_middleware
  middleware-Explained =
      elim (Bool-cases
        (is_none s.token && (not req.over_unix && not (reachable_without_token p req)))) [
          | inl f ↦ rw f tt
          | inr f ↦ rw f (elim (Bool-cases (is_takeover_display_path req.path)) [
            | inl d ↦ rw d (display-Explained d)
            | inr d ↦ rw d (expected-Explained s.token refl d)
          ])
        ]

-- A host without a token answers only its own machine.
open-reachable :
    (p : Parsers) (s : AppState) (req : Request) {auth : Bool} {handoff : Option HandoffAuth}
    {c : Bool}
    → (token_middleware p s req).1 ≡ run_next auth handoff c
    → (is_none s.token ≡ false) ⊎ ((req.over_unix ≡ true) ⊎ (reachable_without_token p req ≡ true))
unfolding token_middleware
open-reachable p s req h = elim (Bool-cases (is_none s.token)) [
  | inr t ↦ inl t
  | inl t ↦ inr (elim (Bool-cases (not req.over_unix && not (reachable_without_token p req))) [
    | inl f ↦ absurd (ground arith)
    | inr f ↦ one_of req.over_unix (reachable_without_token p req) f
  ])
]

explained :
    (p : Parsers) (s : AppState) (req : Request) (d : Decision) {auth : Bool}
    {handoff : Option HandoffAuth} {c : Bool}
    → Explained p s req d
    → d ≡ run_next auth handoff c
    → Credential p s req auth handoff
explained p s req d x e = subst (Explained p s req) e x

-- A request reaches its handler only with the token of the host, with a live credential for a takeover
-- page, with the public health check and no token supplied, or if the host has no token; what the
-- handler is told is what that credential gives. If the host has no token, the request came over the
-- Unix socket or passed `reachable_without_token`.
pub token_middleware-Credential :
    (p : Parsers) (s : AppState) (req : Request) {auth : Bool} {handoff : Option HandoffAuth}
    {c : Bool}
    → (token_middleware p s req).1 ≡ run_next auth handoff c
    → Credential p s req auth handoff
      × ((is_none s.token ≡ false)
          ⊎ ((req.over_unix ≡ true) ⊎ (reachable_without_token p req ≡ true)))
token_middleware-Credential p s req h = (
  explained p s req (token_middleware p s req).1 (middleware-Explained p s req) h,
  open-reachable p s req h,
)

-- A request that carries the token of the host in its `Authorization` header reaches its handler,
-- authenticated, whatever its path.
pub token_middleware-bearer :
    (p : Parsers) (s : AppState) (req : Request) (t : Text)
    → s.token ≡ some t
    → bearer_token p req ≡ some t
    → (token_middleware p s req).1 ≡ run_next true none false
unfolding token_middleware admit_display supplied_long_token knows_token
token_middleware-bearer p s req t e b =
    let same : constant_time_eq t t ≡ true = (constant_time_eq_iff t t).1 refl in
    let known : knows_token s.token (bearer_token p req) ≡ true = rw (e, b) same in
    let supplied : supplied_long_token p req ≡ some t = rw b refl in ground (arith, known, supplied)
