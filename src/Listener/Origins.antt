-- ===== src/Listener/Origins.antt =====
-- What a web page can reach on a host that has no token.
use agent_first_http.Prelude.{
  ◌≡◌, refl, sym, ap, ◌⊎◌, inl, inr, Text, codes, Bool, true, false, not, ◌&&◌, Option, none, some,
  if◌then◌else◌, text_eq, text_eq_iff, get, text_keys, arith,
}
use agent_first_http.Listener.Requests.{
  Parsers, Request, and_then, is_some_and, is_own_site, is_loopback_authority, is_origin_of,
  origin_fits, header_text, reachable_without_token,
}
use agent_first_http.Listener.Handoffs.{HandoffAuth}
use agent_first_http.Listener.Access.{AppState, run_next, token_middleware}
use agent_first_http.Listener.Admission.{token_middleware-Credential}

abbrev pub header : Text → Request → Option Text
header name req = get name req.headers

-- A request that a page of this machine's own host sent, or a person's navigation.
pub record IsLocal (p : Parsers) (req : Request) : Type 0 where
  -- One from another site opens a whole document.
  pub navigates :
      (site : Text)
      → header (codes "sec-fetch-site") req ≡ some site
      → is_own_site (p.to_str site) ≡ false
      → header (codes "sec-fetch-dest") req ≡ some (codes "document")
  -- `Host` names this machine.
  pub loopback :
      (host : Text)
      → and_then (header (codes "host") req) p.to_str ≡ some host
      → is_loopback_authority p host ≡ true
  -- `Origin`, if there is one, is that of `Host`.
  pub same_origin :
      (v : Text)
      → header (codes "origin") req ≡ some v
      → (origin : Text) × (host : Text) × (p.to_str v ≡ some origin)
        × (and_then (header (codes "host") req) p.to_str ≡ some host)
        × (is_origin_of origin host ≡ true)

fits_host :
    (host : Option Text) (origin : Option Text)
    → origin_fits host (some origin) ≡ true
    → (o : Text) × (h : Text) × (origin ≡ some o) × (host ≡ some h) × (is_origin_of o h ≡ true)
unfolding origin_fits
fits_host host none e = cc
fits_host none (some o) e = cc
fits_host (some h) (some o) e = (o, h, refl, refl, e)

passed :
    (a b c : Bool)
    → (if a then false else if b then false else c) ≡ true
    → (a ≡ false) × (b ≡ false) × (c ≡ true)
passed true b c h = cc
passed false true c h = cc
passed false false c h = (refl, refl, h)

left_open : (a b : Bool) → (a && not b) ≡ false → a ≡ true → b ≡ true
left_open a b h e = ground arith

double_not : (b : Bool) → not b ≡ false → b ≡ true
double_not b h = ground arith

top_level_document :
    (dest : Option Text)
    → is_some_and dest (text_eq (codes "document")) ≡ true
    → dest ≡ some (codes "document")
top_level_document none h = cc
top_level_document (some d) h =
    ap (λ (x : Text). some x) (sym ((text_eq_iff (codes "document") d).0 h))

module _ (p : Parsers) (req : Request) (reachable : reachable_without_token p req ≡ true) where
  another_site : Bool
  another_site =
      is_some_and (header (codes "sec-fetch-site") req) (λ site. not (is_own_site (p.to_str site)))

  top_level : Bool
  top_level = is_some_and (header (codes "sec-fetch-dest") req) (text_eq (codes "document"))

  three_tests :
      ((another_site && not top_level) ≡ false)
      × (is_some_and
            (and_then (header (codes "host") req) p.to_str)
            (λ h. not (is_loopback_authority p h))
          ≡ false)
      × (origin_fits
            (and_then (header (codes "host") req) p.to_str)
            (header_text p (header (codes "origin") req))
          ≡ true)
  unfolding reachable_without_token another_site top_level
  three_tests = passed (another_site && not top_level) _ _ reachable

  reachable-IsLocal : IsLocal p req
  unfolding another_site top_level
  reachable-IsLocal = record {
    navigates = λ site e other.
        top_level_document (header (codes "sec-fetch-dest") req)
          (left_open _ _ (three_tests.0) (rw e (ap (λ (b : Bool). not b) other)));
    loopback = λ host e. double_not (is_loopback_authority p host) (rw e at (three_tests.1));
    same_origin = λ v e.
        fits_host (and_then (header (codes "host") req) p.to_str) (p.to_str v)
          (rw e at (three_tests.2));
  }

-- If the host has no token, a request that reaches its handler came over the Unix socket, or its
-- `Host` names this machine, its `Origin` is that of its `Host`, and one that another site caused
-- opens a document; each as far as the request has these headers.
pub token_middleware-IsLocal :
    (p : Parsers) (s : AppState) (req : Request) {auth : Bool} {handoff : Option HandoffAuth}
    {c : Bool}
    → (token_middleware p s req).1 ≡ run_next auth handoff c
    → s.token ≡ none
    → (req.over_unix ≡ true) ⊎ IsLocal p req
token_middleware-IsLocal p s req h n = elim (token_middleware-Credential p s req h).1 [
  | inl t ↦ absurd (ground arith)
  | inr (inl u) ↦ inl u
  | inr (inr r) ↦ inr (reachable-IsLocal p req r)
]
