-- ===== src/Network/StreamTests.antt =====
-- Frames of a WebSocket at concrete times.
use agent_first_http.Prelude.{
  ℕ, ◌≤◌, Text, codes, true, false, ◌≡◌, refl, Option, none, some, List, [], ◌∷◌, length, text_keys,
  text_eq, get, put, remove,
}
use agent_first_http.Network.Collector.{network_entry_limit}
use agent_first_http.Network.StreamBuckets.{
  frame_sent, StreamEvents, StreamEvent, push_bucket, floor_prefix, byte_len, push_stream_event,
  take_stream_events, empty_buckets, drained,
}
use agent_first_http.Network.Streams.{
  StreamParams, StreamStep, web_socket_frame_sent, arrive, take_ws_frames, no_streams, stream_step,
  stream_steps, handle_ws_event,
}
use agent_first_http.Network.Limits.{WithinLimits, all_events, stream_steps-WithinLimits}

abbrev frame_of : Text → StreamParams
frame_of text = record {
  request_id = some (codes "1");
  opcode = some 1;
  mask = none;
  payload_data = some text;
  error_message = none;
  event_name = none;
  event_id = none;
  data_ = none;
  timestamp = none;
}

abbrev two_frames : List StreamStep
two_frames =
    arrive 5 50 web_socket_frame_sent (frame_of (codes "a"))
    ∷ take_ws_frames
    ∷ arrive 6 60 web_socket_frame_sent (frame_of (codes "bc"))
    ∷ []

-- The counts stay after a drain.
abbrev counts_of : Option StreamEvents → List ℕ
counts_of none = []
counts_of (some b) = length b.events ∷ b.captured_total ∷ b.captured_bytes ∷ []

counts_stay :
    counts_of (get (codes "1") (stream_steps true false no_streams two_frames).inner.ws_frames)
    ≡ 1 ∷ 2 ∷ 3 ∷ []
unfolding stream_steps stream_step handle_ws_event push_stream_event push_bucket take_stream_events
    empty_buckets drained byte_len floor_prefix get put remove text_eq
counts_stay = refl

-- The event that crosses the budget is cut at the boundary of a character, and spends the budget.
abbrev crossing_event : StreamEvent
crossing_event = record {
  kind = frame_sent 1 false;
  payload = some (codes "aé");
  timestamp = 0;
  payload_bytes = none;
}

cut_at_boundary :
    (push_bucket crossing_event
      (record { events = []; captured_total = 3; captured_bytes = 1048574 })).0
    ≡ record {
      events = record crossing_event { payload = some (codes "a"); payload_bytes = some 3 } ∷ [];
      captured_total = 4;
      captured_bytes = 1048576;
    }
unfolding push_bucket byte_len floor_prefix
cut_at_boundary = refl

stream_steps-WithinLimits_example :
    let s = stream_steps true false no_streams two_frames in
    WithinLimits (all_events (codes "1") s.inner.ws_frames s.ws_taken)
    × WithinLimits (all_events (codes "1") s.inner.sse_events s.sse_taken)
    × (length s.inner.ws_frames ≤ network_entry_limit)
    × (length s.inner.sse_events ≤ network_entry_limit)
stream_steps-WithinLimits_example = stream_steps-WithinLimits true false two_frames (codes "1")
