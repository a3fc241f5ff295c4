-- ===== src/Network/Statuses.antt =====
-- The states of requests as a fold over the events, which the state of the collector implements.
use agent_first_http.Prelude.{
  ℕ, Text, codes, Bool, true, false, ◌&&◌, ◌≡◌, refl, ◌∙◌, ap, Option, none, some, List, [], ◌∷◌,
  inl, inr, if◌then◌else◌, Bool-cases, text_eq, text_keys, get, text_eq_sound, sym, mapped,
}
use agent_first_http.Pages.Classification.{text_or}
use agent_first_http.Network.Entry.{
  NetworkEntryState, pending, responded, finished, failed, NetworkEntry, Method,
  request_will_be_sent, response_received, loading_finished, loading_failed,
  request_served_from_cache, other, CdpEvent,
}
use agent_first_http.Network.Collector.{
  NetworkInner, no_requests, touch, is_id, is_blank, is_refused, stamped, is_network,
}
use agent_first_http.Network.Events.{
  admit_request, on_request, change_entry, dispatch, handle_event, Received, event, lagged, receive,
  collect,
}
use agent_first_http.Network.Lookups.{
  state_of, becomes, IsPlain, get-with_slot, admit_request-get, admit_request-get_self,
  is_id-text_or, state_of-becomes, state_of-keeps, if_same,
}
use agent_first_http.Network.Losses.{collect-truncated}

-- What an event of the request says of it.
abbrev pub status_by : Method → Option NetworkEntryState → Option NetworkEntryState
status_by request_will_be_sent old = some pending
status_by response_received old = becomes responded old
status_by loading_finished old = becomes finished old
status_by loading_failed old = becomes failed old
status_by _ old = old

abbrev pub status_step :
    Text → Text → Received → Option NetworkEntryState → Option NetworkEntryState
status_step session id (event now ev) old =
    if is_id session ev.session_id && is_id id ev.request_id then status_by ev.method old else old
status_step session id (lagged now count) old = old

abbrev pub status_after :
    Text → Text → List Received → Option NetworkEntryState → Option NetworkEntryState
status_after session id [] old = old
status_after session id (r ∷ rest) old = status_after session id rest (status_step session id r old)

module _ (id : Text) (plain : IsPlain id) (filled : is_blank id ≡ false) where
  admit_request-status :
      (redact : Bool) (now : ℕ) (ev : CdpEvent) (req : Text) (inner : NetworkInner)
      → state_of (get id (admit_request redact now ev req inner).slots)
        ≡ (if text_eq req id then some pending else state_of (get id inner.slots))
  admit_request-status redact now ev req inner = elim (Bool-cases (text_eq req id)) [
    | inl same ↦
        rw (same, ← text_eq_sound req id same) (admit_request-get_self redact now ev req inner)
    | inr other_id ↦
        rw other_id (ap state_of (admit_request-get id plain redact now ev req inner other_id))
  ]

  on_request-status :
      (redact : Bool) (now : ℕ) (ev : CdpEvent) (inner : NetworkInner)
      → (on_request redact now ev inner).0.truncated ≡ false
      → state_of (get id (on_request redact now ev inner).0.slots)
        ≡ (if is_id id ev.request_id then some pending else state_of (get id inner.slots))
  unfolding on_request
  on_request-status redact now ev inner whole =
      elim (Bool-cases
        (is_refused inner (text_or ev.request_id []) (text_or ev.type_ (codes "Other")))) [
          | inl refused ↦ let bad : true ≡ false = rw (refused, on_request) at whole in cc
          | inr taken ↦
              rw (taken, is_id-text_or id ev.request_id filled)
                (admit_request-status redact now ev (text_or ev.request_id []) inner)
        ]

  change_entry-status :
      (req : Text) (f : NetworkEntry → NetworkEntry) (inner : NetworkInner)
      → state_of (get id (change_entry req f inner).slots)
        ≡ state_of (
            if text_eq req id
            then mapped (λ s. record s { entry = f s.entry }) (get id inner.slots)
            else get id inner.slots)
  unfolding change_entry
  change_entry-status req f inner = ap state_of (get-with_slot req id _ inner.slots)

  -- A change of one kind, whatever else it writes.
  change_entry-becomes :
      (o : Option Text) (f : NetworkEntry → NetworkEntry) (new : NetworkEntryState)
      (inner : NetworkInner)
      → ((e : NetworkEntry) → (f e).state ≡ new)
      → state_of (get id (change_entry (text_or o []) f inner).slots) ≡ (
          if is_id id o
          then becomes new (state_of (get id inner.slots))
          else state_of (get id inner.slots))
  change_entry-becomes o f new inner sets = rw (is_id-text_or id o filled) (
      change_entry-status (text_or o []) f inner
      ∙ state_of-becomes (text_eq (text_or o []) id) f new (get id inner.slots) sets)

  change_entry-keeps :
      (o : Option Text) (f : NetworkEntry → NetworkEntry) (inner : NetworkInner)
      → ((e : NetworkEntry) → (f e).state ≡ e.state)
      → state_of (get id (change_entry (text_or o []) f inner).slots)
        ≡ state_of (get id inner.slots)
  change_entry-keeps o f inner keeps =
      change_entry-status (text_or o []) f inner
      ∙ state_of-keeps (text_eq (text_or o []) id) _ (get id inner.slots) (λ s. keeps s.entry)

  dispatch-status :
      (redact : Bool) (now : ℕ) (ev : CdpEvent) (m : Method) (inner : NetworkInner)
      → (dispatch redact now ev m inner).0.truncated ≡ false
      → state_of (get id (dispatch redact now ev m inner).0.slots) ≡ (
          if is_id id ev.request_id
          then status_by m (state_of (get id inner.slots))
          else state_of (get id inner.slots))
  unfolding dispatch
  dispatch-status redact now ev request_will_be_sent inner whole =
      on_request-status redact now ev inner whole
  dispatch-status redact now ev response_received inner whole =
      change_entry-becomes ev.request_id _ responded inner (λ e. refl)
  dispatch-status redact now ev loading_finished inner whole =
      change_entry-becomes ev.request_id _ finished inner (λ e. refl)
  dispatch-status redact now ev loading_failed inner whole =
      change_entry-becomes ev.request_id _ failed inner (λ e. refl)
  dispatch-status redact now ev request_served_from_cache inner whole =
      change_entry-keeps ev.request_id _ inner (λ e. refl)
      ∙ sym (if_same (is_id id ev.request_id) _)
  dispatch-status redact now ev (other _) inner whole = sym (if_same (is_id id ev.request_id) _)

  stamped-status :
      (now : ℕ) (m : Method) (inner : NetworkInner) (o : Option Text)
      → state_of (get id (stamped now m inner o)) ≡ state_of (get id inner.slots)
  unfolding stamped
  stamped-status now m inner none = refl
  stamped-status now m inner (some req) = elim (Bool-cases (is_network m)) [
    | inl b ↦ rw b (
        ap state_of (get-with_slot req id _ inner.slots)
        ∙ state_of-keeps (text_eq req id) _ (get id inner.slots) (λ s. refl))
    | inr b ↦ rw b
  ]

  handle_event-status :
      (redact : Bool) (now : ℕ) (ev : CdpEvent) (inner : NetworkInner)
      → (handle_event redact now ev inner).0.truncated ≡ false
      → state_of (get id (handle_event redact now ev inner).0.slots) ≡ (
          if is_id id ev.request_id
          then status_by ev.method (state_of (get id inner.slots))
          else state_of (get id inner.slots))
  unfolding handle_event
  handle_event-status redact now ev inner whole =
      dispatch-status redact now ev ev.method (touch now ev inner) whole
      ∙ ap (λ o. if is_id id ev.request_id then status_by ev.method o else o)
          (stamped-status now ev.method inner ev.request_id)

  receive-status :
      (redact : Bool) (session : Text) (inner : NetworkInner) (r : Received)
      → (receive redact session inner r).truncated ≡ false
      → state_of (get id (receive redact session inner r).slots)
        ≡ status_step session id r (state_of (get id inner.slots))
  unfolding receive
  receive-status redact session inner (event now ev) whole =
      elim (Bool-cases (is_id session ev.session_id)) [
        | inl mine ↦ rw mine (handle_event-status redact now ev inner (rw (mine, receive) at whole))
        | inr other_session ↦ rw other_session
      ]
  receive-status redact session inner (lagged now count) whole = refl

collect-status :
    (redact : Bool) (session id : Text) (events : List Received) (inner : NetworkInner)
    → IsPlain id
    → is_blank id ≡ false
    → (collect redact session events inner).truncated ≡ false
    → state_of (get id (collect redact session events inner).slots)
      ≡ status_after session id events (state_of (get id inner.slots))
unfolding collect
collect-status redact session id [] inner plain filled whole = refl
collect-status redact session id (r ∷ rest) inner plain filled whole =
    let step_whole : (receive redact session inner r).truncated ≡ false =
      elim (Bool-cases (receive redact session inner r).truncated) [
        | inl cut ↦
            let bad : true ≡ false = sym (collect-truncated redact session rest _ cut) ∙ whole in cc
        | inr fine ↦ fine
      ] in
    collect-status redact session id rest _ plain filled whole
    ∙ ap (status_after session id rest)
        (receive-status id plain filled redact session inner r step_whole)

-- While nothing was left out, the entry of a request, whose identifier has no `#` and is not empty,
-- has the state that the last events of that request in the session give it: pending once it was sent,
-- then responded, finished or failed; and there is an entry exactly if the request was sent.
pub collect-status_after :
    (redact : Bool) (session id : Text) (events : List Received)
    → IsPlain id
    → is_blank id ≡ false
    → (collect redact session events no_requests).truncated ≡ false
    → state_of (get id (collect redact session events no_requests).slots)
      ≡ status_after session id events none
unfolding no_requests get
collect-status_after redact session id events plain filled whole =
    collect-status redact session id events no_requests plain filled whole
