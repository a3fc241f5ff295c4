-- ===== src/Request/Origins.antt =====
-- `same_origin` is an equivalence on URLs, and where `next_hop` leads.
use agent_first_http.Prelude.{
  ℕ, ◌≡◌, refl, Text, true, not, Option, none, some, ◌==◌, if◌then◌else◌, text_eq_trans,
  text_eq_refl, if_intro, text_keys, arith,
}
use agent_first_http.Errors.{Result, ok, err}
use agent_first_http.Request.Options.{PreparedRequestOptions}
use agent_first_http.Request.Redirects.{
  HopUrl, same_origin, Response, Exchange, Client, leave_origin, change_method, Next, done, follow,
  after_cookies, next_hop, persist_set_cookies, is_redirect, is_web, eq_host, eq_port,
}

eq_host_refl : (a : Option Text) → eq_host a a ≡ true
eq_host_refl none = refl
eq_host_refl (some a) = text_eq_refl a

eq_port_refl : (a : Option ℕ) → eq_port a a ≡ true
eq_port_refl none = refl
eq_port_refl (some a) = ground arith

pub same_origin_refl : (u : HopUrl) → same_origin u u ≡ true
unfolding same_origin
same_origin_refl u =
    ground (arith, text_eq_refl u.url.scheme, eq_host_refl u.url.host, eq_port_refl u.port)

eq_host_trans : (a b c : Option Text) → eq_host a b ≡ true → eq_host b c ≡ true → eq_host a c ≡ true
eq_host_trans none none none h k = refl
eq_host_trans (some a) (some b) (some c) h k = text_eq_trans a b c h k
eq_host_trans none (some b) c h k = cc
eq_host_trans (some a) none c h k = cc
eq_host_trans none none (some c) h k = cc
eq_host_trans (some a) (some b) none h k = cc

eq_port_trans : (a b c : Option ℕ) → eq_port a b ≡ true → eq_port b c ≡ true → eq_port a c ≡ true
eq_port_trans none none none h k = refl
eq_port_trans (some a) (some b) (some c) h k = ground arith
eq_port_trans none (some b) c h k = cc
eq_port_trans (some a) none c h k = cc
eq_port_trans none none (some c) h k = cc
eq_port_trans (some a) (some b) none h k = cc

pub same_origin_trans :
    (a b c : HopUrl) → same_origin a b ≡ true → same_origin b c ≡ true → same_origin a c ≡ true
unfolding same_origin
same_origin_trans a b c h k = ground (
  arith,
  text_eq_trans a.url.scheme b.url.scheme c.url.scheme,
  eq_host_trans a.url.host b.url.host c.url.host,
  eq_port_trans a.port b.port c.port,
)

-- Where `next_hop` leads.
abbrev pub LeadsTo : ℕ → HopUrl → PreparedRequestOptions → Next → Type 0
LeadsTo status u o (done r) = Unit
LeadsTo status u o (follow next o') = o' ≡ change_method status (leave_origin u next o)

after_cookies-LeadsTo :
    (redirects : ℕ) (u : HopUrl) (o : PreparedRequestOptions) (r : Response)
    (location : Option (Option HopUrl))
    → LeadsTo r.status u o (after_cookies redirects u o r location)
after_cookies-LeadsTo redirects u o r none = tt
after_cookies-LeadsTo redirects u o r (some none) =
    if_intro (LeadsTo r.status u o) (redirects == 10) (λ _. tt) (λ _. tt)
after_cookies-LeadsTo redirects u o r (some (some next)) =
    if_intro (LeadsTo r.status u o) (redirects == 10) (λ _. tt)
      (λ _. if_intro (LeadsTo r.status u o) (is_web next) (λ _. refl) (λ _. tt))

pub next_hop-LeadsTo :
    (c : Client) (x : Exchange) (redirects : ℕ) (u : HopUrl) (o : PreparedRequestOptions)
    (r : Result Response)
    → (status : ℕ) × LeadsTo status u o (next_hop c x redirects u o r)
unfolding next_hop
next_hop-LeadsTo c x redirects u o (err e) = (0, tt)
next_hop-LeadsTo c x redirects u o (ok r) = (
  r.status,
  if_intro (LeadsTo r.status u o) (not c.has_jar) (λ _. tt)
      (λ _. persisted (persist_set_cookies c x u.url r.set_cookies)),
)
  where
    persisted :
        (p : Result (Unit {0}))
        → LeadsTo r.status u o (elim p [
          | err e ↦ done (err e)
          | ok _ ↦
              if not (is_redirect r.status)
              then done (ok r)
              else after_cookies redirects u o r r.location
        ])
    persisted (err e) = tt
    persisted (ok _) =
        if_intro (LeadsTo r.status u o) (not (is_redirect r.status)) (λ _. tt)
          (λ _. after_cookies-LeadsTo redirects u o r r.location)
