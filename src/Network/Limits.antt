-- ===== src/Network/Limits.antt =====
-- The limits on what is kept of the streams of a request, however often it is taken.
use agent_first_http.Prelude.{
  ℕ, ◌≤◌, Text, Bool, true, false, List, [], ◌∷◌, ◌++◌, inl, inr, length, text_keys, arith,
  Bool-cases, Option-cases,
}
use agent_first_http.Pages.Classification.{text_or}
use agent_first_http.Network.Collector.{network_entry_limit, is_blank}
use agent_first_http.Network.StreamBuckets.{
  stream_event_limit, stream_payload_bytes, StreamEvent, StreamEvents,
}
use agent_first_http.Network.Streams.{
  Streaming, StreamMethod, StreamParams, StreamStep, ws_event, sse_event, is_message,
  handle_ws_event, handle_sse_event, arrive, take_ws_frames, take_sse_events, stream_step,
  stream_steps, no_streams,
}
use agent_first_http.Network.Buckets.{payload_sum, length-++, payload_sum-++, Fits}
use agent_first_http.Network.Kept.{
  events_taken, bucket, no_streams-IsKept, push_stream_event-IsKept, take_stream_events-IsKept,
  IsKept,
}

-- Both maps of a collector.
pub record BothKept (s : Streaming) : Type 0 where
  pub ws : IsKept s.inner.ws_frames s.ws_taken
  pub sse : IsKept s.inner.sse_events s.sse_taken

handle_ws_event-BothKept :
    (now now_ms : ℕ) (method : StreamMethod) (p : StreamParams) (s : Streaming)
    → BothKept s
    → BothKept (record s { inner = handle_ws_event now now_ms method p s.inner })
unfolding handle_ws_event
handle_ws_event-BothKept now now_ms method p s h = elim (Option-cases (ws_event now_ms method p)) [
  | inl e ↦ rw (e, handle_ws_event) h
  | inr (frame, e) ↦
      rw (e, handle_ws_event)
        (elim (Bool-cases (is_blank (text_or p.request_id []))) [
          | inl blank ↦ rw blank (record { ws = h.ws; sse = h.sse })
          | inr named ↦ rw named (record {
            ws =
                push_stream_event-IsKept (text_or p.request_id []) frame s.inner.ws_frames
                  s.ws_taken h.ws;
            sse = h.sse;
          })
        ])
]

handle_sse_event-BothKept :
    (now : ℕ) (method : StreamMethod) (p : StreamParams) (s : Streaming)
    → BothKept s
    → BothKept (record s { inner = handle_sse_event now method p s.inner })
unfolding handle_sse_event
handle_sse_event-BothKept now method p s h = elim (Bool-cases (is_message method)) [
  | inr other ↦ rw other h
  | inl heard ↦ rw heard (elim (Bool-cases (is_blank (text_or p.request_id []))) [
    | inl blank ↦ rw blank (record { ws = h.ws; sse = h.sse })
    | inr named ↦ rw named (record {
      ws = h.ws;
      sse =
          push_stream_event-IsKept (text_or p.request_id []) (sse_event p) s.inner.sse_events
            s.sse_taken h.sse;
    })
  ])
]

stream_step-BothKept :
    (capture_ws capture_sse : Bool) (s : Streaming) (e : StreamStep)
    → BothKept s
    → BothKept (stream_step capture_ws capture_sse s e)
unfolding stream_step
stream_step-BothKept false false s (arrive now now_ms method p) h = h
stream_step-BothKept true false s (arrive now now_ms method p) h =
    handle_ws_event-BothKept now now_ms method p s h
stream_step-BothKept false true s (arrive now now_ms method p) h =
    handle_sse_event-BothKept now method p s h
stream_step-BothKept true true s (arrive now now_ms method p) h =
    handle_sse_event-BothKept now method p
      (record s { inner = handle_ws_event now now_ms method p s.inner })
      (handle_ws_event-BothKept now now_ms method p s h)
stream_step-BothKept capture_ws capture_sse s take_ws_frames h = record {
  ws = take_stream_events-IsKept s.inner.ws_frames s.ws_taken h.ws;
  sse = h.sse;
}
stream_step-BothKept capture_ws capture_sse s take_sse_events h = record {
  ws = h.ws;
  sse = take_stream_events-IsKept s.inner.sse_events s.sse_taken h.sse;
}

stream_steps-BothKept :
    (capture_ws capture_sse : Bool) (s : Streaming) (steps : List StreamStep)
    → BothKept s
    → BothKept (stream_steps capture_ws capture_sse s steps)
unfolding stream_steps
stream_steps-BothKept capture_ws capture_sse s [] h = h
stream_steps-BothKept capture_ws capture_sse s (e ∷ rest) h =
    stream_steps-BothKept capture_ws capture_sse (stream_step capture_ws capture_sse s e) rest
      (stream_step-BothKept capture_ws capture_sse s e h)

-- All that was kept of the streams of a request: what callers took of it, and what waits for the next.
abbrev pub all_events :
    Text → List (Text × StreamEvents) → List (List (Text × List StreamEvent)) → List StreamEvent
all_events id streams taken = events_taken id taken ++ (bucket id streams).events

pub record WithinLimits (events : List StreamEvent) : Type 0 where
  pub total : length events ≤ stream_event_limit
  pub bytes : payload_sum events ≤ stream_payload_bytes

kept-WithinLimits :
    (taken : List StreamEvent) (b : StreamEvents) → Fits taken b → WithinLimits (taken ++ b.events)
kept-WithinLimits taken b h = record {
  total = omega (arith, h.total, h.total_limit, length-++ taken b.events);
  bytes = omega (arith, h.bytes, h.bytes_limit, payload_sum-++ taken b.events);
}

-- However events arrive and however often callers take what was kept: of each request at most 1024
-- WebSocket frames and at most 1024 server-sent events are kept in all, with at most 1 MiB of payload
-- each, and there are at most 4096 requests of either kind.
pub stream_steps-WithinLimits :
    (capture_ws capture_sse : Bool) (steps : List StreamStep) (id : Text)
    → let s = stream_steps capture_ws capture_sse no_streams steps in
      WithinLimits (all_events id s.inner.ws_frames s.ws_taken)
      × WithinLimits (all_events id s.inner.sse_events s.sse_taken)
      × (length s.inner.ws_frames ≤ network_entry_limit)
      × (length s.inner.sse_events ≤ network_entry_limit)
stream_steps-WithinLimits capture_ws capture_sse steps id =
    let s = stream_steps capture_ws capture_sse no_streams steps in
    let h =
      stream_steps-BothKept capture_ws capture_sse no_streams steps
        (record { ws = no_streams-IsKept; sse = no_streams-IsKept }) in
    (
      kept-WithinLimits (events_taken id s.ws_taken) (bucket id s.inner.ws_frames) (h.ws.fits id),
      kept-WithinLimits (events_taken id s.sse_taken) (bucket id s.inner.sse_events)
          (h.sse.fits id),
      h.ws.requests,
      h.sse.requests,
    )
