-- ===== src/Network/Streams.antt =====
-- sdk/fetch/artifacts/collectors.rs: the frames of WebSockets and the events of server-sent streams that
-- the collector keeps, with the limits of one request.
use agent_first_http.Prelude.{
  ℕ, Text, codes, Bool, true, false, Option, none, some, List, [], ◌∷◌, if◌then◌else◌, text_keys,
}
use agent_first_http.Pages.Classification.{text_or}
use agent_first_http.Network.Collector.{is_blank}
use agent_first_http.Network.StreamBuckets.{
  StreamKind, StreamEvent, StreamEvents, push_stream_event, take_stream_events, frame_sent,
  frame_received, frame_error, message,
}

-- The methods that the handlers tell apart.
pub data StreamMethod : Type 0 where
  web_socket_frame_sent web_socket_frame_received web_socket_frame_error : StreamMethod
  event_source_message_received other_method : StreamMethod

-- The parameters that the handlers read; a timestamp is in milliseconds, as the code converts it.
pub record StreamParams : Type 0 where
  pub request_id : Option Text
  pub opcode : Option ℕ
  pub mask : Option Bool
  pub payload_data : Option Text
  pub error_message : Option Text
  pub event_name : Option Text
  pub event_id : Option Text
  pub data_ : Option Text
  pub timestamp : Option ℕ

-- The fields of `NetworkInner` that the handlers change.
pub record StreamInner : Type 0 where
  pub ws_frames : List (Text × StreamEvents)
  pub sse_events : List (Text × StreamEvents)
  pub last_activity : Option ℕ
  pub truncated : Bool

abbrev pub value_or {ℓ} : {A : Type ℓ} → Option A → A → A
value_or none a = a
value_or (some a) _ = a

-- The frame for an event of a WebSocket, at the time `now_ms`.
abbrev pub ws_frame : ℕ → StreamKind → Option Text → StreamEvent
ws_frame now_ms kind payload = record {
  kind = kind;
  payload = payload;
  timestamp = now_ms;
  payload_bytes = none;
}

abbrev pub ws_event : ℕ → StreamMethod → StreamParams → Option StreamEvent
ws_event now_ms web_socket_frame_sent p = some (
    ws_frame now_ms (frame_sent (value_or p.opcode 1) (value_or p.mask false))
      (some (text_or p.payload_data [])))
ws_event now_ms web_socket_frame_received p = some (
    ws_frame now_ms (frame_received (value_or p.opcode 1) (value_or p.mask false))
      (some (text_or p.payload_data [])))
ws_event now_ms web_socket_frame_error p =
    some (ws_frame now_ms (frame_error (text_or p.error_message (codes "unknown"))) none)
ws_event now_ms _ p = none

unfoldable pub handle_ws_event : ℕ → ℕ → StreamMethod → StreamParams → StreamInner → StreamInner
unfolding push_stream_event
handle_ws_event now now_ms method p inner = elim (ws_event now_ms method p) [
  | none ↦ inner
  | some frame ↦
      let active = record inner { last_activity = some now } in
      let pushed = push_stream_event (text_or p.request_id []) frame inner.ws_frames in
      if is_blank (text_or p.request_id []) then active else record active {
        ws_frames = pushed.0;
        truncated = if pushed.1 then inner.truncated else true;
      }
]

abbrev pub sse_event : StreamParams → StreamEvent
sse_event p = record {
  kind = message (text_or p.event_name []) (text_or p.event_id []);
  payload = some (text_or p.data_ []);
  timestamp = value_or p.timestamp 0;
  payload_bytes = none;
}

abbrev pub is_message : StreamMethod → Bool
is_message event_source_message_received = true
is_message _ = false

unfoldable pub handle_sse_event : ℕ → StreamMethod → StreamParams → StreamInner → StreamInner
unfolding push_stream_event
handle_sse_event now method p inner =
    let active = record inner { last_activity = some now } in
    let pushed = push_stream_event (text_or p.request_id []) (sse_event p) inner.sse_events in
    if is_message method
    then (if is_blank (text_or p.request_id []) then active else record active {
      sse_events = pushed.0;
      truncated = if pushed.1 then inner.truncated else true;
    })
    else inner

-- What happens to the maps of a collector: an event arrives, or a caller takes what was kept.
pub data StreamStep : Type 0 where
  arrive : ℕ → ℕ → StreamMethod → StreamParams → StreamStep
  take_ws_frames take_sse_events : StreamStep

-- The state, with all that the callers of `take_ws_frames` and `take_sse_events` were given.
pub record Streaming : Type 0 where
  pub inner : StreamInner
  pub ws_taken : List (List (Text × List StreamEvent))
  pub sse_taken : List (List (Text × List StreamEvent))

abbrev pub no_streams : Streaming
no_streams = record {
  inner = record { ws_frames = []; sse_events = []; last_activity = none; truncated = false };
  ws_taken = [];
  sse_taken = [];
}

-- The flags say what is captured.
unfoldable pub stream_step : Bool → Bool → Streaming → StreamStep → Streaming
unfolding handle_ws_event handle_sse_event take_stream_events
stream_step capture_ws capture_sse s (arrive now now_ms method p) =
    let after_ws = if capture_ws then handle_ws_event now now_ms method p s.inner else s.inner in
    record s { inner = if capture_sse then handle_sse_event now method p after_ws else after_ws }
stream_step capture_ws capture_sse s take_ws_frames =
    let taken = take_stream_events s.inner.ws_frames in
    record s { inner = record s.inner { ws_frames = taken.0 }; ws_taken = taken.1 ∷ s.ws_taken }
stream_step capture_ws capture_sse s take_sse_events =
    let taken = take_stream_events s.inner.sse_events in
    record s { inner = record s.inner { sse_events = taken.0 }; sse_taken = taken.1 ∷ s.sse_taken }

unfoldable pub stream_steps : Bool → Bool → Streaming → List StreamStep → Streaming
unfolding stream_step
stream_steps capture_ws capture_sse s [] = s
stream_steps capture_ws capture_sse s (e ∷ rest) =
    stream_steps capture_ws capture_sse (stream_step capture_ws capture_sse s e) rest
