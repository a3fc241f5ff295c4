-- ===== src/Request/Credentials.antt =====
-- Where the caller's credentials go when a server redirects.
use agent_first_http.Prelude.{
  ◌∙◌, ℕ, zero, suc, ◌+◌, ◌<◌, ◌≡◌, refl, sym, ap, subst, ◌⊎◌, inl, inr, true, All, text_keys,
  Bool-cases, arith,
}
use agent_first_http.Errors.{Result, ok, err}
use agent_first_http.Request.Options.{PreparedRequestOptions}
use agent_first_http.Request.Redirects.{
  HopUrl, same_origin, Exchange, Client, Wire, prepare_hop, leave_origin, change_method, Next, done,
  follow, next_hop, after_next, after_prepare, send_hops, send_http_response,
}
use agent_first_http.Request.Clean.{IsClean, change_method-IsClean, leave_origin-IsClean}
use agent_first_http.Request.Origins.{
  same_origin_refl, same_origin_trans, LeadsTo, next_hop-LeadsTo,
}
use agent_first_http.Request.Sent.{StaysHome, hop-IsForeign, hop_url}

-- The options after a redirect, for one hop at an origin that is the first one or where they are clean.
next-IsClean :
    (u : HopUrl) (o : PreparedRequestOptions) (start next : HopUrl)
    → (same_origin start u ≡ true) ⊎ IsClean o
    → (same_origin start next ≡ true) ⊎ IsClean (leave_origin u next o)
next-IsClean u o start next (inr clean) = inr (leave_origin-IsClean u next o (inr clean))
next-IsClean u o start next (inl home) = elim (Bool-cases (same_origin u next)) [
  | inl e ↦ inl (same_origin_trans start u next home e)
  | inr e ↦ inr (leave_origin-IsClean u next o (inl e))
]

module _ (c : Client) (start : HopUrl) (exchange : ℕ → Exchange) where
  -- A hop is at the origin of the first URL, or after a redirect and without credentials.
  abbrev AtHop : ℕ → HopUrl → PreparedRequestOptions → Type 0
  AtHop redirects u o = (same_origin start u ≡ true) ⊎ (IsClean o × (0 < redirects))

  hop-StaysHome :
      (redirects : ℕ) (u : HopUrl) (o : PreparedRequestOptions) (w : Wire)
      → AtHop redirects u o
      → prepare_hop c (exchange redirects) redirects u o ≡ ok w
      → StaysHome c start w
  hop-StaysHome redirects u o w (inl home) h =
      inl (ap (same_origin start) (hop_url c (exchange redirects) redirects u o w h) ∙ home)
  hop-StaysHome redirects u o w (inr (clean, later)) h =
      inr (hop-IsForeign c (exchange redirects) redirects u o w clean later h)

  next-AtHop :
      (redirects status : ℕ) (u next : HopUrl) (o : PreparedRequestOptions)
      → AtHop redirects u o
      → AtHop (redirects + 1) next (change_method status (leave_origin u next o))
  next-AtHop redirects status u next o (inl home) = elim (next-IsClean u o start next (inl home)) [
    | inl h ↦ inl h
    | inr clean ↦ inr (change_method-IsClean status (leave_origin u next o) clean, omega arith)
  ]
  next-AtHop redirects status u next o (inr (clean, later)) = inr (
    change_method-IsClean status (leave_origin u next o)
        (leave_origin-IsClean u next o (inr clean)),
    omega arith,
  )

  module _ (left redirects : ℕ)
      (ih : (u : HopUrl) (o : PreparedRequestOptions)
        → AtHop (redirects + 1) u o
        → All (StaysHome c start) (send_hops c exchange left (redirects + 1) u o).1)
      (u : HopUrl) (o : PreparedRequestOptions) (at : AtHop redirects u o) where
    after_hop :
        (w : Wire) (next : Next) (status : ℕ)
        → StaysHome c start w
        → LeadsTo status u o next
        → All (StaysHome c start) (after_next (send_hops c exchange left (redirects + 1)) w next).1
    after_hop w (done r) status s l = (s, tt)
    after_hop w (follow next o') status s l = (
      s,
      ih next o'
          (subst (AtHop (redirects + 1) next) (sym l) (next-AtHop redirects status u next o at)),
    )

    from_hop :
        (p : Result Wire)
        → prepare_hop c (exchange redirects) redirects u o ≡ p
        → All
            (StaysHome c start)
            (after_prepare
              (send_hops c exchange left (redirects + 1))
              c
              (exchange redirects)
              redirects
              u
              o
              p).1
    from_hop (err e) h = tt
    from_hop (ok w) h =
        let (status, l) =
          next_hop-LeadsTo c (exchange redirects) redirects u o (exchange redirects).response in
        after_hop w (next_hop c (exchange redirects) redirects u o (exchange redirects).response)
          status (hop-StaysHome redirects u o w at h) l

  hops-StayHome :
      (left redirects : ℕ) (u : HopUrl) (o : PreparedRequestOptions)
      → AtHop redirects u o
      → All (StaysHome c start) (send_hops c exchange left redirects u o).1
  unfolding send_hops
  hops-StayHome zero redirects u o at = tt
  hops-StayHome (suc left) redirects u o at =
      from_hop left redirects (hops-StayHome left (redirects + 1)) u o at
        (prepare_hop c (exchange redirects) redirects u o) refl

-- Whatever the servers answer: each request that the loop over redirects sends to another origin than
-- that of the URL asked for has none of the headers that are for that origin alone, and its `Cookie`
-- header is the one for the jar's cookies alone.
pub send_http_response-StaysHome :
    (c : Client) (exchange : ℕ → Exchange) (start : HopUrl) (o : PreparedRequestOptions)
    → All (StaysHome c start) (send_http_response c exchange start o).1
unfolding send_http_response
send_http_response-StaysHome c exchange start o =
    hops-StayHome c start exchange 11 0 start o (inl (same_origin_refl start))
