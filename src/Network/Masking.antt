-- ===== src/Network/Masking.antt =====
-- What the collector keeps of credentials.
use agent_first_http.Prelude.{
  ℕ, Text, codes, true, Option, none, some, List, [], ◌∷◌, inl, inr, Bool-cases, Option-cases,
  text_keys, get, remove, length, ltb, ◌+◌, All, get-All, put-All, remove-All, if_intro,
}
use agent_first_http.Pages.Classification.{text_or}
use agent_first_http.Redaction.Headers.{IsMasked, redact_inplace-IsMasked}
use agent_first_http.Network.Entry.{
  NetworkEntry, Response, Method, request_will_be_sent, response_received, loading_finished,
  loading_failed, request_served_from_cache, other, CdpEvent,
}
use agent_first_http.Network.Collector.{
  NetworkSlot, NetworkInner, network_entry_limit, with_slot, touch, stamped, is_id, is_network,
  is_refused, end_hop,
}
use agent_first_http.Network.Events.{
  respond, finish_loading, fail_loading, serve_from_cache, admit_request, on_request, change_entry,
  dispatch, Received, event, lagged, receive, collect,
}

-- No header of an entry shows a credential.
abbrev pub IsMaskedEntry : NetworkEntry → Type 0
IsMaskedEntry e = All IsMasked e.request_headers × All IsMasked e.response_headers

abbrev IsMaskedSlot : Text → NetworkSlot → Type 0
IsMaskedSlot k s = IsMaskedEntry s.entry

abbrev pub AllMasked : List (Text × NetworkSlot) → Type 0
AllMasked slots = All (λ (e : Text × NetworkSlot). IsMaskedEntry e.1.entry) slots

abbrev PreservesMask : (NetworkEntry → NetworkEntry) → Type 0
PreservesMask f = (e : NetworkEntry) → IsMaskedEntry e → IsMaskedEntry (f e)

with_slot-AllMasked :
    (k : Text) (f : NetworkSlot → NetworkSlot) (slots : List (Text × NetworkSlot))
    → ((s : NetworkSlot) → IsMaskedEntry s.entry → IsMaskedEntry (f s).entry)
    → AllMasked slots
    → AllMasked (with_slot k f slots)
unfolding with_slot
with_slot-AllMasked k f slots keeps h = elim (Option-cases (get k slots)) [
  | inl e ↦ rw (e, with_slot) h
  | inr (s, e) ↦
      rw (e, with_slot)
        (put-All IsMaskedSlot k (f s) slots
          (keeps s (get-All (λ t. IsMaskedEntry t.entry) k slots h e)) h)
]

change_entry-AllMasked :
    (k : Text) (f : NetworkEntry → NetworkEntry) (inner : NetworkInner)
    → PreservesMask f
    → AllMasked inner.slots
    → AllMasked (change_entry k f inner).slots
unfolding change_entry
change_entry-AllMasked k f inner keeps h =
    with_slot-AllMasked k _ inner.slots (λ s. keeps s.entry) h

stamped-AllMasked :
    (now : ℕ) (m : Method) (inner : NetworkInner) (o : Option Text)
    → AllMasked inner.slots
    → AllMasked (stamped now m inner o)
unfolding stamped
stamped-AllMasked now m inner none h = h
stamped-AllMasked now m inner (some id) h =
    if_intro AllMasked (is_network m) (λ _. with_slot-AllMasked id _ inner.slots (λ s p. p) h)
      (λ _. h)

end_hop-AllMasked :
    (req : Text) (t : ℕ) (r : Option Response) (inner : NetworkInner)
    → AllMasked inner.slots
    → AllMasked (end_hop true req t r inner).0.slots
unfolding end_hop
end_hop-AllMasked req t none inner h = h
end_hop-AllMasked req t (some r) inner h = elim (Option-cases (get req inner.slots)) [
  | inl e ↦ rw (e, end_hop) h
  | inr (hop, e) ↦
      rw (e, end_hop)
        (elim (Bool-cases (ltb network_entry_limit (length (remove req inner.slots) + 2))) [
          | inl full ↦ rw full (remove-All IsMaskedSlot req inner.slots h)
          | inr room ↦ rw room (
              put-All IsMaskedSlot _ _ _
                (
                  (get-All (λ t. IsMaskedEntry t.entry) req inner.slots h e).0,
                  redact_inplace-IsMasked r.headers,
                )
                (remove-All IsMaskedSlot req inner.slots h))
        ])
]

on_request-AllMasked :
    (now : ℕ) (ev : CdpEvent) (inner : NetworkInner)
    → AllMasked inner.slots
    → AllMasked (on_request true now ev inner).0.slots
unfolding on_request admit_request
on_request-AllMasked now ev inner h =
    elim (Bool-cases
      (is_refused inner (text_or ev.request_id []) (text_or ev.type_ (codes "Other")))) [
        | inl refused ↦ rw refused h
        | inr taken ↦ rw taken (
            put-All IsMaskedSlot _ _ _ (redact_inplace-IsMasked ev.request.headers, tt)
              (end_hop-AllMasked _ _ ev.redirect_response _ h))
      ]

dispatch-AllMasked :
    (now : ℕ) (ev : CdpEvent) (m : Method) (inner : NetworkInner)
    → AllMasked inner.slots
    → AllMasked (dispatch true now ev m inner).0.slots
unfolding dispatch
dispatch-AllMasked now ev request_will_be_sent inner h = on_request-AllMasked now ev inner h
dispatch-AllMasked now ev response_received inner h =
    change_entry-AllMasked _ (respond true ev.response) inner
      (λ e p. (p.0, redact_inplace-IsMasked ev.response.headers)) h
dispatch-AllMasked now ev loading_finished inner h =
    change_entry-AllMasked _ (finish_loading _ _) inner (λ e p. p) h
dispatch-AllMasked now ev loading_failed inner h =
    change_entry-AllMasked _ (fail_loading _) inner (λ e p. p) h
dispatch-AllMasked now ev request_served_from_cache inner h =
    change_entry-AllMasked _ serve_from_cache inner (λ e p. p) h
dispatch-AllMasked now ev (other _) inner h = h

receive-AllMasked :
    (session : Text) (inner : NetworkInner) (r : Received)
    → AllMasked inner.slots
    → AllMasked (receive true session inner r).slots
unfolding receive
receive-AllMasked session inner (event now ev) h = elim (Bool-cases (is_id session ev.session_id)) [
  | inl mine ↦ rw mine (
      dispatch-AllMasked now ev ev.method (touch now ev inner)
        (stamped-AllMasked now ev.method inner ev.request_id h))
  | inr foreign ↦ rw foreign h
]
receive-AllMasked session inner (lagged now count) h = h

-- With redaction on, whatever events are received, every entry that the collector keeps has only masked
-- headers, of the request and of the response: one that carries a credential has the value
-- `[redacted]`. This holds too of the hops of redirects.
pub collect-AllMasked :
    (session : Text) (events : List Received) (inner : NetworkInner)
    → AllMasked inner.slots
    → AllMasked (collect true session events inner).slots
unfolding collect
collect-AllMasked session [] inner h = h
collect-AllMasked session (r ∷ rest) inner h =
    collect-AllMasked session rest _ (receive-AllMasked session inner r h)
