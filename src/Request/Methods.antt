-- ===== src/Request/Methods.antt =====
-- What a redirect does to the method and the body, and how the loop ends.
use agent_first_http.Prelude.{
  ℕ, zero, suc, ◌+◌, ◌≡◌, refl, sym, ap, subst, ◌∙◌, ◌⊎◌, inl, inr, Text, codes, not, Option, none,
  some, List, if◌then◌else◌, if_intro, All, arith,
}
use agent_first_http.Errors.{Result, ok, err, >>=-ok}
use agent_first_http.Request.Values.{PreparedCookie}
use agent_first_http.Request.Options.{
  BodyPayload, none_, PreparedRequestOptions, merge_jar_cookies, merge_into,
}
use agent_first_http.Request.Redirects.{
  HopUrl, Response, Exchange, Client, Wire, jar_cookies, with_jar, scope_cookies, prepare_hop,
  leave_origin, becomes_get, change_method, Next, done, follow, after_cookies, next_hop, after_next,
  after_prepare, send_hops, send_http_response, persist_set_cookies, is_redirect,
}
use agent_first_http.Request.Origins.{LeadsTo, next_hop-LeadsTo}
use agent_first_http.Request.Sent.{build_wire-parts}

-- The method and the body that a request may have: the first ones, or those of a GET.
abbrev pub IsResend : PreparedRequestOptions → Text → BodyPayload → Type 0
IsResend first method body =
    ((method ≡ first.method) × (body ≡ first.body_payload))
    ⊎ ((method ≡ codes "GET") × (body ≡ none_))

abbrev MayResend : PreparedRequestOptions → PreparedRequestOptions → Type 0
MayResend first o = IsResend first o.method o.body_payload

leave_origin-MayResend :
    (u next : HopUrl) (first o : PreparedRequestOptions)
    → MayResend first o
    → MayResend first (leave_origin u next o)
unfolding leave_origin
leave_origin-MayResend u next first o m = if_intro (MayResend first) _ (λ _. m) (λ _. m)

change_method-MayResend :
    (status : ℕ) (first o : PreparedRequestOptions)
    → MayResend first o
    → MayResend first (change_method status o)
unfolding change_method
change_method-MayResend status first o m =
    if_intro (MayResend first) (becomes_get status o.method) (λ _. inr (refl, refl)) (λ _. m)

module _ (c : Client) (first : PreparedRequestOptions) where
  merge_into-MayResend :
      (extras : List PreparedCookie) (o : PreparedRequestOptions) (raw : Option Text)
      → MayResend first o
      → MayResend first (merge_into c.wiring o extras raw)
  merge_into-MayResend extras o none m = m
  merge_into-MayResend extras o (some r) m = m

  hop_options-MayResend :
      (extras : List PreparedCookie) (redirects : ℕ) (u : HopUrl) (o : PreparedRequestOptions)
      → MayResend first o
      → MayResend first (scope_cookies redirects u.url (with_jar c extras o))
  unfolding scope_cookies merge_jar_cookies
  hop_options-MayResend extras redirects u o m =
      let jar =
        if_intro (MayResend first) c.has_jar
          (λ _. merge_into-MayResend extras o o.raw_cookie_header m) (λ _. m) in
      if_intro (MayResend first) _ (λ _. jar) (λ _. jar)

  prepare_hop-IsResend :
      (x : Exchange) (redirects : ℕ) (u : HopUrl) (o : PreparedRequestOptions) (w : Wire)
      → MayResend first o
      → prepare_hop c x redirects u o ≡ ok w
      → IsResend first w.method w.body
  unfolding prepare_hop
  prepare_hop-IsResend x redirects u o w m h =
      let (extras, e, f) = >>=-ok (jar_cookies c x u.url) _ h in
      let (map, g, same) =
        build_wire-parts c x u extras (scope_cookies redirects u.url (with_jar c extras o)) w f in
      subst (λ (v : Wire). IsResend first v.method v.body) (sym same)
        (hop_options-MayResend extras redirects u o m)

  module _ (exchange : ℕ → Exchange) where
    abbrev Resent : Result Response × List Wire → Type 0
    Resent r = All (λ (w : Wire). IsResend first w.method w.body) r.1

    after_next-Resent :
        (again : HopUrl → PreparedRequestOptions → Result Response × List Wire)
        → ((u : HopUrl) (o : PreparedRequestOptions) → MayResend first o → Resent (again u o))
        → (w : Wire) (status : ℕ) (u : HopUrl) (o : PreparedRequestOptions) (next : Next)
        → IsResend first w.method w.body
        → MayResend first o
        → LeadsTo status u o next
        → Resent (after_next again w next)
    after_next-Resent again ih w status u o (done r) s m l = (s, tt)
    after_next-Resent again ih w status u o (follow next o') s m l = (
      s,
      ih next o' (
          subst (MayResend first) (sym l) (
            change_method-MayResend status first (leave_origin u next o)
              (leave_origin-MayResend u next first o m))),
    )

    after_prepare-Resent :
        (again : HopUrl → PreparedRequestOptions → Result Response × List Wire)
        → ((u : HopUrl) (o : PreparedRequestOptions) → MayResend first o → Resent (again u o))
        → (x : Exchange) (redirects : ℕ) (u : HopUrl) (o : PreparedRequestOptions) (p : Result Wire)
        → prepare_hop c x redirects u o ≡ p
        → MayResend first o
        → Resent (after_prepare again c x redirects u o p)
    after_prepare-Resent again ih x redirects u o (err e) h m = tt
    after_prepare-Resent again ih x redirects u o (ok w) h m =
        let (status, l) = next_hop-LeadsTo c x redirects u o x.response in
        after_next-Resent again ih w status u o (next_hop c x redirects u o x.response)
          (prepare_hop-IsResend x redirects u o w m h) m l

    send_hops-Resent :
        (left redirects : ℕ) (u : HopUrl) (o : PreparedRequestOptions)
        → MayResend first o
        → Resent (send_hops c exchange left redirects u o)
    unfolding send_hops
    send_hops-Resent zero redirects u o m = tt
    send_hops-Resent (suc left) redirects u o m =
        after_prepare-Resent (send_hops c exchange left (redirects + 1))
          (send_hops-Resent left (redirects + 1)) (exchange redirects) redirects u o
          (prepare_hop c (exchange redirects) redirects u o) refl m

-- Each request that the loop sends has the method and the body that were asked for, or is a GET
-- without a body.
pub send_http_response-IsResend :
    (c : Client) (exchange : ℕ → Exchange) (u : HopUrl) (o : PreparedRequestOptions)
    → All (λ (w : Wire). IsResend o w.method w.body) (send_http_response c exchange u o).1
unfolding send_http_response
send_http_response-IsResend c exchange u o =
    send_hops-Resent c o exchange 11 0 u o (inl (refl, refl))

-- The eleventh request is the last.
abbrev IsDone : Next → Type 0
IsDone (done r) = Unit
IsDone (follow next o) = ⊥

after_cookies-IsDone :
    (u : HopUrl) (o : PreparedRequestOptions) (r : Response) (location : Option (Option HopUrl))
    → IsDone (after_cookies 10 u o r location)
after_cookies-IsDone u o r none = tt
after_cookies-IsDone u o r (some l) = tt

module _ (c : Client) where
  next_hop-IsDone :
      (x : Exchange) (u : HopUrl) (o : PreparedRequestOptions) (r : Result Response)
      → IsDone (next_hop c x 10 u o r)
  unfolding next_hop
  next_hop-IsDone x u o (err e) = tt
  next_hop-IsDone x u o (ok r) =
      if_intro IsDone (not c.has_jar) (λ _. tt)
        (λ _. persisted (persist_set_cookies c x u.url r.set_cookies))
    where
      persisted :
          (p : Result (Unit {0}))
          → IsDone (elim p [
            | err e ↦ done (err e)
            | ok _ ↦
                if not (is_redirect r.status)
                then done (ok r)
                else after_cookies 10 u o r r.location
          ])
      persisted (err e) = tt
      persisted (ok _) =
          if_intro IsDone (not (is_redirect r.status)) (λ _. tt)
            (λ _. after_cookies-IsDone u o r r.location)

  module _ (again more : HopUrl → PreparedRequestOptions → Result Response × List Wire) where
    after_next-last : (w : Wire) (n : Next) → IsDone n → after_next again w n ≡ after_next more w n
    after_next-last w (done r) d = refl
    after_next-last w (follow next o) d = absurd d

    after_prepare-last :
        (x : Exchange) (u : HopUrl) (o : PreparedRequestOptions) (p : Result Wire)
        → after_prepare again c x 10 u o p ≡ after_prepare more c x 10 u o p
    after_prepare-last x u o (err e) = refl
    after_prepare-last x u o (ok w) =
        after_next-last w (next_hop c x 10 u o x.response) (next_hop-IsDone x u o x.response)

  send_hops-more :
      (exchange : ℕ → Exchange) (k left redirects : ℕ) (u : HopUrl) (o : PreparedRequestOptions)
      → left + redirects ≡ 10
      → send_hops c exchange (suc (left + k)) redirects u o
        ≡ send_hops c exchange (suc left) redirects u o
  unfolding send_hops
  send_hops-more exchange k zero redirects u o h =
      let ten : redirects ≡ 10 = omega arith in
      subst (λ (n : ℕ). send_hops c exchange (suc (0 + k)) n u o ≡ send_hops c exchange 1 n u o)
        (sym ten) (after_prepare-last _ _ (exchange 10) u o (prepare_hop c (exchange 10) 10 u o))
  send_hops-more exchange k (suc left) redirects u o h =
      let count : suc left + k ≡ suc (left + k) = omega arith in
      ap (λ (n : ℕ). send_hops c exchange (suc n) redirects u o) count ∙ (λ i.
        after_prepare
          (λ u' o'. send_hops-more exchange k left (redirects + 1) u' o' (omega arith) i) c
          (exchange redirects) redirects u o (prepare_hop c (exchange redirects) redirects u o))

-- The rounds of `0..=10` are enough: the loop always returns from within, so that with any number of
-- further rounds it would send the same requests and return the same result.
pub send_http_response-ends :
    (c : Client) (exchange : ℕ → Exchange) (k : ℕ) (u : HopUrl) (o : PreparedRequestOptions)
    → send_hops c exchange (11 + k) 0 u o ≡ send_http_response c exchange u o
unfolding send_http_response
send_http_response-ends c exchange k u o =
    let count : 11 + k ≡ suc (10 + k) = omega arith in
    ap (λ (n : ℕ). send_hops c exchange n 0 u o) count
    ∙ send_hops-more c exchange k 10 0 u o (omega arith)
