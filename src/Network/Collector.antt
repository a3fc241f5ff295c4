-- ===== src/Network/Collector.antt =====
-- sdk/fetch/artifacts/collectors.rs: the state of `NetworkCollector`, what an event does to it, and
-- what is read from it. `now` is the clock at an event.
use agent_first_http.Prelude.{
  to_string, ℕ, ◌+◌, ◌-◌, Text, codes, Bool, true, false, not, ◌&&◌, ◌||◌, Option, none, some, List,
  [], ◌∷◌, ◌++◌, ltb, leb, if◌then◌else◌, length, text_eq, text_keys, get, put, remove,
}
use agent_first_http.Pages.Classification.{text_or}
use agent_first_http.Redaction.Headers.{redact_inplace}
use agent_first_http.Network.Entry.{
  finished, Hint, NetworkEntry, default_entry, PostData, Response, Method, other, CdpEvent,
}

abbrev pub network_entry_limit : ℕ
network_entry_limit = 4096

pub record NetworkSlot : Type 0 where
  pub entry : NetworkEntry
  pub started_at : ℕ
  pub updated_at : ℕ

-- The frames of streams are in `Network.Streams`.
pub record NetworkInner : Type 0 where
  pub slots : List (Text × NetworkSlot)
  pub main_request_id : Option Text
  pub finished_ids : List Text
  pub redirect_hops : List (Text × ℕ)
  pub last_activity : Option ℕ
  pub events_dropped : ℕ
  pub truncated : Bool

-- `NetworkInner::default()`
unfoldable pub no_requests : NetworkInner
no_requests = record {
  slots = [];
  main_request_id = none;
  finished_ids = [];
  redirect_hops = [];
  last_activity = none;
  events_dropped = 0;
  truncated = false;
}

-- `if let Some(s) = slots.get_mut(k) { .. }`
unfoldable pub with_slot :
    Text → (NetworkSlot → NetworkSlot) → List (Text × NetworkSlot) → List (Text × NetworkSlot)
with_slot k f slots = elim (get k slots) [ none ↦ slots | some s ↦ put k (f s) slots ]

abbrev pub is_network : Method → Bool
is_network (other b) = b
is_network _ = true

abbrev pub is_activity : Method → Bool
is_activity (other _) = false
is_activity _ = true

-- The event stamps the slot of its request, and the aggregate.
unfoldable pub stamped : ℕ → Method → NetworkInner → Option Text → List (Text × NetworkSlot)
unfolding with_slot
stamped now method inner none = inner.slots
stamped now method inner (some id) =
    if is_network method
    then with_slot id (λ s. record s { updated_at = now }) inner.slots
    else inner.slots

unfoldable pub touch : ℕ → CdpEvent → NetworkInner → NetworkInner
unfolding stamped
touch now ev inner = record inner {
  slots = stamped now ev.method inner ev.request_id;
  last_activity = if is_activity ev.method then some now else inner.last_activity;
}

abbrev pub is_none {ℓ} : {A : Type ℓ} → Option A → Bool
is_none none = true
is_none (some _) = false

abbrev pub is_id : Text → Option Text → Bool
is_id k none = false
is_id k (some id) = text_eq id k

abbrev pub is_document : Text → Bool
is_document resource_type = text_eq resource_type (codes "Document")

-- One slot is kept back for the main document.
unfoldable pub entry_limit : Option Text → Text → ℕ
entry_limit main resource_type =
    if is_none main && not (is_document resource_type)
    then network_entry_limit - 1
    else network_entry_limit

abbrev pub is_blank : Text → Bool
is_blank [] = true
is_blank (_ ∷ _) = false

unfoldable pub is_refused : NetworkInner → Text → Text → Bool
unfolding entry_limit
is_refused inner req_id resource_type =
    is_blank req_id
    || (is_none (get req_id inner.slots)
        && leb (entry_limit inner.main_request_id resource_type) (length inner.slots))

abbrev pub headers_of : Bool → List (Text × Text) → List (Text × Text)
headers_of redact_headers headers = if redact_headers then redact_inplace headers else headers

unfoldable pub hop_id_of : Text → ℕ → Text
hop_id_of req_id count = req_id ++ (codes "#redirect" ++ to_string count)

unfoldable pub ended_hop : Bool → Text → ℕ → Response → NetworkEntry → NetworkEntry
ended_hop redact_headers hop_id timestamp redirect e = record e {
  request_id = hop_id;
  status = redirect.status;
  state = finished;
  timing = record {
    start_monotonic_ms = e.timing.start_monotonic_ms;
    end_monotonic_ms = some timestamp;
  };
  response_headers = headers_of redact_headers redirect.headers;
  hints = put (codes "redirected") (Hint.flag true) e.hints;
}

abbrev pub hop_count : Option ℕ → ℕ
hop_count none = 0
hop_count (some n) = n

abbrev pub or_zero : Option ℕ → ℕ
or_zero none = 0
or_zero (some n) = n

-- The hop that has ended moves to an entry of its own, if there is room; its identifier is returned.
unfoldable pub keep_hop :
    Bool → Text → ℕ → Response → NetworkSlot → NetworkInner → NetworkInner × Option Text
unfolding hop_id_of ended_hop
keep_hop redact_headers req_id timestamp redirect hop inner =
    let slots = remove req_id inner.slots in
    if ltb network_entry_limit (length slots + 2)
    then (record inner { slots = slots; truncated = true }, none)
    else (let count = hop_count (get req_id inner.redirect_hops) in
        let hop_id = hop_id_of req_id count in
        (
          record inner {
            redirect_hops = put req_id (count + 1) inner.redirect_hops;
            slots =
                put hop_id
                  (record hop {
                    entry = ended_hop redact_headers hop_id timestamp redirect hop.entry;
                  })
                  slots;
          },
          some hop_id,
        ))

unfoldable pub end_hop :
    Bool → Text → ℕ → Option Response → NetworkInner → NetworkInner × Option Text
unfolding keep_hop
end_hop redact_headers req_id timestamp none inner = (inner, none)
end_hop redact_headers req_id timestamp (some redirect) inner = elim (get req_id inner.slots) [
  | none ↦ (inner, none)
  | some hop ↦ keep_hop redact_headers req_id timestamp redirect hop inner
]

abbrev pub post_hints : Option PostData → List (Text × Hint)
post_hints none = []
post_hints (some p) = elim p.json [
  | none ↦ []
  | some (operation, has_query) ↦
      let valid = put (codes "request_body_json_valid") (Hint.flag true) [] in
      let named : List (Text × Hint) = elim operation [
        | none ↦ valid
        | some op ↦ put (codes "graphql_operation_name") (Hint.text op) valid
      ] in
      if has_query
      then put (codes "graphql_operation_type") (Hint.text (codes "request")) named
      else named
]

abbrev pub post_len : Option PostData → Option ℕ
post_len none = none
post_len (some p) = some p.len

unfoldable pub new_entry : Bool → Text → Option Text → CdpEvent → NetworkEntry
unfolding default_entry
new_entry redact_headers req_id redirect_from ev = record default_entry {
  request_id = req_id;
  redirect_from_request_id = redirect_from;
  frame_id = ev.frame_id;
  loader_id = ev.loader_id;
  resource_type = text_or ev.type_ (codes "Other");
  request_url = text_or ev.request.url [];
  method = text_or ev.request.method (codes "GET");
  initiator = ev.initiator;
  request_headers = headers_of redact_headers ev.request.headers;
  timing = record { start_monotonic_ms = or_zero ev.timestamp; end_monotonic_ms = none };
  request_post_data_present = not (is_none ev.request.post_data);
  request_post_data_size_bytes = post_len ev.request.post_data;
  hints = post_hints ev.request.post_data;
}
