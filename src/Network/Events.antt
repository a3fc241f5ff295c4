-- ===== src/Network/Events.antt =====
-- sdk/fetch/artifacts/collectors.rs: `handle_event` by method, and the loop of `from_receiver`. `now` is
-- the clock at an event.
use agent_first_http.Prelude.{
  u64_max, ℕ, ◌+◌, Text, codes, Bool, true, false, ◌&&◌, Option, none, some, List, [], ◌∷◌, leb,
  if◌then◌else◌, text_keys, get, put, insert,
}
use agent_first_http.Pages.Classification.{text_or}
use agent_first_http.Network.Entry.{
  responded, finished, failed, Hint, NetworkEntry, Response, Method, request_will_be_sent,
  response_received, loading_finished, loading_failed, request_served_from_cache, other, CdpEvent,
}
use agent_first_http.Network.Collector.{
  NetworkInner, with_slot, touch, is_none, is_id, is_document, is_refused, headers_of, or_zero,
  end_hop, new_entry,
}

unfoldable pub choose_main : Text → Text → Option Text → Option Text
choose_main req_id resource_type main =
    if is_document resource_type && is_none main then some req_id else main

unfoldable pub admit_request : Bool → ℕ → CdpEvent → Text → NetworkInner → NetworkInner
unfolding end_hop new_entry choose_main
admit_request redact_headers now ev req_id inner =
    let main = choose_main req_id (text_or ev.type_ (codes "Other")) inner.main_request_id in
    let (moved, redirect_from) =
      end_hop redact_headers req_id (or_zero ev.timestamp) ev.redirect_response
        (record inner { main_request_id = main }) in
    record moved {
      slots =
          put req_id
            (record {
              entry = new_entry redact_headers req_id redirect_from ev;
              started_at = now;
              updated_at = now;
            })
            moved.slots;
    }

unfoldable pub on_request : Bool → ℕ → CdpEvent → NetworkInner → NetworkInner × Bool
unfolding is_refused admit_request
on_request redact_headers now ev inner =
    let req_id = text_or ev.request_id [] in
    if is_refused inner req_id (text_or ev.type_ (codes "Other"))
    then (record inner { truncated = true }, false)
    else (let admitted = admit_request redact_headers now ev req_id inner in
        (admitted, is_id req_id admitted.main_request_id))

abbrev pub or_old : Option Text → Option Text → Option Text
or_old none old = old
or_old (some a) old = some a

abbrev pub hint_some : Text → Option Hint → List (Text × Hint) → List (Text × Hint)
hint_some key none hints = hints
hint_some key (some h) hints = put key h hints

abbrev pub as_text : Option Text → Option Hint
as_text none = none
as_text (some t) = some (Hint.text t)

abbrev pub as_number : Option ℕ → Option Hint
as_number none = none
as_number (some n) = some (Hint.number n)

unfoldable pub respond : Bool → Response → NetworkEntry → NetworkEntry
respond redact_headers r e = record e {
  status = r.status;
  state = responded;
  mime_type = or_old r.mime_type e.mime_type;
  response_headers = headers_of redact_headers r.headers;
  hints = hint_some (codes "encoded_header_length") (as_number r.encoded_data_length) (
      hint_some (codes "remote_address") (as_text r.remote_ip_address)
        (hint_some (codes "protocol") (as_text r.protocol) e.hints));
}

unfoldable pub finish_loading : ℕ → Option ℕ → NetworkEntry → NetworkEntry
finish_loading timestamp encoded e = record e {
  timing = record {
    start_monotonic_ms = e.timing.start_monotonic_ms;
    end_monotonic_ms = some timestamp;
  };
  state = finished;
  hints = hint_some (codes "encoded_data_length") (as_number encoded) e.hints;
}

unfoldable pub fail_loading : Text → NetworkEntry → NetworkEntry
fail_loading error e = record e { failure = some error; state = failed }

unfoldable pub serve_from_cache : NetworkEntry → NetworkEntry
serve_from_cache e = record e { hints = put (codes "served_from_cache") (Hint.flag true) e.hints }

-- A change of the entry of a request, if it is known.
unfoldable pub change_entry : Text → (NetworkEntry → NetworkEntry) → NetworkInner → NetworkInner
unfolding with_slot
change_entry id f inner = record inner {
  slots = with_slot id (λ s. record s { entry = f s.entry }) inner.slots;
}

-- As above; and the request joins those whose loading has ended.
unfoldable pub end_entry : Text → (NetworkEntry → NetworkEntry) → NetworkInner → NetworkInner
unfolding change_entry
end_entry id f inner = record (change_entry id f inner) {
  finished_ids =
      if is_none (get id inner.slots) then inner.finished_ids else insert id inner.finished_ids;
}

-- `handle_event` after the stamps, by method; the second part says whether the main document changed.
unfoldable pub dispatch : Bool → ℕ → CdpEvent → Method → NetworkInner → NetworkInner × Bool
unfolding on_request change_entry end_entry respond finish_loading fail_loading serve_from_cache
dispatch redact_headers now ev request_will_be_sent inner = on_request redact_headers now ev inner
dispatch redact_headers now ev response_received inner =
    let id = text_or ev.request_id [] in
    (change_entry id (respond redact_headers ev.response) inner, is_id id inner.main_request_id)
dispatch redact_headers now ev loading_finished inner =
    let id = text_or ev.request_id [] in
    (
      end_entry id (finish_loading (or_zero ev.timestamp) ev.encoded_data_length) inner,
      is_id id inner.main_request_id,
    )
dispatch redact_headers now ev loading_failed inner =
    let id = text_or ev.request_id [] in
    (end_entry id (fail_loading (text_or ev.error_text [])) inner, is_id id inner.main_request_id)
dispatch redact_headers now ev request_served_from_cache inner =
    (change_entry (text_or ev.request_id []) serve_from_cache inner, false)
dispatch redact_headers now ev (other _) inner = (inner, false)

unfoldable pub handle_event : Bool → ℕ → CdpEvent → NetworkInner → NetworkInner × Bool
unfolding touch dispatch
handle_event redact_headers now ev inner =
    dispatch redact_headers now ev ev.method (touch now ev inner)

-- What the task of the collector receives: an event, or word that some were lost.
pub data Received : Type 0 where
  event : ℕ → CdpEvent → Received
  lagged : ℕ → ℕ → Received

-- `a.saturating_add(b)` on `u64`
abbrev pub saturating_add_u64 : ℕ → ℕ → ℕ
saturating_add_u64 a b = if leb (a + b) u64_max then a + b else u64_max

-- The loop of `from_receiver` over what it receives; it keeps the events of its own session.
unfoldable pub receive : Bool → Text → NetworkInner → Received → NetworkInner
unfolding handle_event
receive redact_headers session inner (event now ev) =
    if is_id session ev.session_id then (handle_event redact_headers now ev inner).0 else inner
receive redact_headers session inner (lagged now count) = record inner {
  events_dropped = saturating_add_u64 inner.events_dropped count;
  last_activity = some now;
}

unfoldable pub collect : Bool → Text → List Received → NetworkInner → NetworkInner
unfolding receive
collect redact_headers session [] inner = inner
collect redact_headers session (r ∷ rest) inner =
    collect redact_headers session rest (receive redact_headers session inner r)
