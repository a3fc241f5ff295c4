-- ===== src/Network/Losses.antt =====
-- The mark that something was left out is never taken back.
use agent_first_http.Prelude.{
  ℕ, Text, codes, Bool, true, ◌≡◌, Option, none, some, List, [], ◌∷◌, inl, inr, Bool-cases,
  Option-cases, text_keys, get, remove, ltb, length, ◌+◌,
}
use agent_first_http.Pages.Classification.{text_or}
use agent_first_http.Network.Entry.{
  Response, Method, request_will_be_sent, response_received, CdpEvent,
}
use agent_first_http.Network.Collector.{
  network_entry_limit, NetworkInner, touch, is_id, is_refused, end_hop,
}
use agent_first_http.Network.Events.{dispatch, Received, event, lagged, receive, collect}

-- Once something was left out, the state says so for good.
pub end_hop-truncated :
    (redact : Bool) (req : Text) (t : ℕ) (r : Option Response) (inner : NetworkInner)
    → inner.truncated ≡ true
    → (end_hop redact req t r inner).0.truncated ≡ true
unfolding end_hop
end_hop-truncated redact req t none inner h = h
end_hop-truncated redact req t (some r) inner h = elim (Option-cases (get req inner.slots)) [
  | inl e ↦ rw (e, end_hop) h
  | inr (hop, e) ↦
      rw (e, end_hop)
        (elim (Bool-cases (ltb network_entry_limit (length (remove req inner.slots) + 2))) [
          | inl full ↦ rw full
          | inr room ↦ rw room h
        ])
]

pub dispatch-truncated :
    (redact : Bool) (now : ℕ) (ev : CdpEvent) (m : Method) (inner : NetworkInner)
    → inner.truncated ≡ true
    → (dispatch redact now ev m inner).0.truncated ≡ true
unfolding dispatch
dispatch-truncated redact now ev request_will_be_sent inner h =
    elim (Bool-cases
      (is_refused inner (text_or ev.request_id []) (text_or ev.type_ (codes "Other")))) [
        | inl refused ↦ rw (refused)
        | inr taken ↦ rw (taken) (end_hop-truncated redact _ _ ev.redirect_response _ h)
      ]
dispatch-truncated redact now ev response_received inner h = h
dispatch-truncated redact now ev _ inner h = h

pub receive-truncated :
    (redact : Bool) (session : Text) (inner : NetworkInner) (r : Received)
    → inner.truncated ≡ true
    → (receive redact session inner r).truncated ≡ true
unfolding receive touch
receive-truncated redact session inner (event now ev) h =
    elim (Bool-cases (is_id session ev.session_id)) [
      | inl mine ↦ rw mine (dispatch-truncated redact now ev ev.method (touch now ev inner) h)
      | inr other_session ↦ rw other_session h
    ]
receive-truncated redact session inner (lagged now count) h = h

pub collect-truncated :
    (redact : Bool) (session : Text) (events : List Received) (inner : NetworkInner)
    → inner.truncated ≡ true
    → (collect redact session events inner).truncated ≡ true
unfolding collect
collect-truncated redact session [] inner h = h
collect-truncated redact session (r ∷ rest) inner h =
    collect-truncated redact session rest _ (receive-truncated redact session inner r h)
