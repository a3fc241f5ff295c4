-- ===== src/Network/Tests.antt =====
-- Events of a page at concrete times.
use agent_first_http.Prelude.{
  ℕ, zero, suc, ◌+◌, ◌≤◌, Text, codes, true, ◌≡◌, refl, none, some, List, [], ◌∷◌, length,
  text_keys, text_eq, get, put, remove, insert, member, contains_char, to_string, arith, false,
}
use agent_first_http.Redaction.Headers.{redact_inplace, should_redact}
use agent_first_http.Network.Entry.{
  default_entry, Response, Method, request_will_be_sent, response_received, loading_finished,
  loading_failed, CdpEvent,
}
use agent_first_http.Network.Collector.{
  NetworkSlot, NetworkInner, no_requests, network_entry_limit, hop_id_of, ended_hop, is_none,
}
use agent_first_http.Network.Events.{Received, event, on_request, collect}
use agent_first_http.Network.Snapshots.{quiet_snapshot}
use agent_first_http.Network.Lookups.{state_of}
use agent_first_http.Network.Statuses.{status_after, collect-status_after}
use agent_first_http.Network.Quiet.{IsOver, collect-quiet}
use agent_first_http.Network.Masking.{AllMasked, collect-AllMasked}
use agent_first_http.Network.Bounds.{collect-length}
use agent_first_http.Network.Reserve.{on_request-document_lost}

abbrev no_response : Response
no_response = record {
  status = none;
  mime_type = none;
  headers = [];
  protocol = none;
  remote_ip_address = none;
  encoded_data_length = none;
}

abbrev page_event : Method → Text → Text → CdpEvent
page_event method id type_ = record {
  session_id = some (codes "s");
  method = method;
  request_id = some id;
  frame_id = some (codes "f");
  loader_id = some (codes "l");
  type_ = some type_;
  timestamp = some 5;
  initiator = none;
  request = record {
    url = some (codes "http://a");
    method = none;
    headers = (codes "Cookie", codes "k=v") ∷ [];
    post_data = none;
  };
  redirect_response = none;
  response = record no_response {
    status = some 200;
    headers = (codes "Set-Cookie", codes "k=w") ∷ [];
  };
  encoded_data_length = some 80;
  error_text = none;
}

abbrev redirected : CdpEvent → CdpEvent
redirected ev = record ev { redirect_response = some (record no_response { status = some 302 }) }

abbrev page_events : List Received
page_events =
    event 10 (page_event request_will_be_sent (codes "1") (codes "Document"))
    ∷ event 20 (redirected (page_event request_will_be_sent (codes "1") (codes "Document")))
    ∷ event 30 (page_event response_received (codes "1") (codes "Document"))
    ∷ event 35 (page_event request_will_be_sent (codes "2") (codes "Image"))
    ∷ event 40 (page_event loading_finished (codes "1") (codes "Document"))
    ∷ event 50 (page_event loading_failed (codes "2") (codes "Image"))
    ∷ []

abbrev page_state : NetworkInner
page_state = collect true (codes "s") page_events no_requests

-- Two requests and one hop.
page_counts : (length page_state.slots ≡ 3) × (page_state.main_request_id ≡ some (codes "1"))
unfolding collect no_requests redact_inplace should_redact get put remove insert member text_eq
    to_string
page_counts = (refl, refl)

collect-status_after_example :
    state_of (get (codes "2") page_state.slots)
    ≡ status_after (codes "s") (codes "2") page_events none
unfolding collect no_requests redact_inplace should_redact get put remove insert member text_eq
    to_string contains_char
collect-status_after_example =
    collect-status_after true (codes "s") (codes "2") page_events refl refl refl

collect-quiet_example : IsOver (status_after (codes "s") (codes "1") page_events none)
unfolding collect no_requests redact_inplace should_redact get put remove insert member text_eq
    to_string contains_char quiet_snapshot
collect-quiet_example =
    collect-quiet true (codes "s") (codes "1") page_events 500 900 refl refl refl refl

collect-AllMasked_example : AllMasked page_state.slots
unfolding no_requests
collect-AllMasked_example = collect-AllMasked (codes "s") page_events no_requests tt

collect-length_example : length page_state.slots ≤ network_entry_limit
unfolding no_requests
collect-length_example = collect-length true (codes "s") page_events no_requests (omega arith)

-- Slots for requests with identifiers of one character.
filler : ℕ → List (Text × NetworkSlot)
unfolding default_entry
filler zero = []
filler (suc n) =
    ((1000 + n) ∷ [], record { entry = default_entry; started_at = 0; updated_at = 0 }) ∷ filler n

nearly_full : NetworkInner
unfolding no_requests filler default_entry
nearly_full = record no_requests {
  slots =
      (codes "1", record { entry = default_entry; started_at = 0; updated_at = 0 }) ∷ filler 4094;
}

abbrev late_document : CdpEvent
late_document = page_event request_will_be_sent (codes "2") (codes "Document")

abbrev image_redirected : CdpEvent
image_redirected = redirected (page_event request_will_be_sent (codes "1") (codes "Image"))

on_request-document_lost_example :
    let after = (on_request true 8 image_redirected nearly_full).0 in
    let without = (on_request true 9 late_document nearly_full).0 in
    (get (hop_id_of (codes "1") 0) after.slots
      ≡ some (record {
        entry =
            ended_hop true
              (hop_id_of (codes "1") 0)
              5
              (record no_response { status = some 302 })
              default_entry;
        started_at = 0;
        updated_at = 0;
      }))
    × (length after.slots ≡ network_entry_limit)
    × (after.main_request_id ≡ none)
    × (on_request true 9 late_document after ≡ (record after { truncated = true }, false))
    × (without.main_request_id ≡ some (codes "2"))
    × (is_none (get (codes "2") without.slots) ≡ false)
unfolding nearly_full get put remove text_eq to_string on_request hop_id_of
on_request-document_lost_example =
    on_request-document_lost true 8 9 image_redirected late_document nearly_full (codes "1")
      (record no_response { status = some 302 }) refl refl refl refl refl refl refl refl refl refl
      refl refl
