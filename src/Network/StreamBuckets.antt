-- ===== src/Network/StreamBuckets.antt =====
-- sdk/fetch/artifacts/collectors.rs: what is kept of the streams of a request, with its limits.
use agent_first_http.Prelude.{
  ℕ, ◌+◌, ◌-◌, Text, Bool, true, false, ◌&&◌, Option, none, some, List, [], ◌∷◌, ◌++◌, ltb, leb,
  ◌==◌, if◌then◌else◌, length, text_keys, get, put,
}
use agent_first_http.Pages.Classification.{text_or}
use agent_first_http.Network.Collector.{network_entry_limit, is_none}

abbrev pub stream_event_limit : ℕ
stream_event_limit = 1024

abbrev pub stream_payload_bytes : ℕ
stream_payload_bytes = 1048576

-- The bytes of a code point in UTF-8.
abbrev pub char_len : ℕ → ℕ
char_len c = if ltb c 128 then 1 else if ltb c 2048 then 2 else if ltb c 65536 then 3 else 4

-- `s.len()`
unfoldable pub byte_len : Text → ℕ
byte_len [] = 0
byte_len (c ∷ s) = char_len c + byte_len s

-- `s[..s.floor_char_boundary(n)]`
unfoldable pub floor_prefix : ℕ → Text → Text
floor_prefix n [] = []
floor_prefix n (c ∷ s) =
    let rest = floor_prefix (n - char_len c) s in if leb (char_len c) n then c ∷ rest else []

-- What a kept event is, but for its payload: a frame with its opcode and mask, an error, or a message
-- with its name and identifier.
pub data StreamKind : Type 0 where
  frame_sent frame_received : ℕ → Bool → StreamKind
  frame_error : Text → StreamKind
  message : Text → Text → StreamKind

-- A kept event; `payload_bytes` is there if the payload was cut.
pub record StreamEvent : Type 0 where
  pub kind : StreamKind
  pub payload : Option Text
  pub timestamp : ℕ
  pub payload_bytes : Option ℕ

pub record StreamEvents : Type 0 where
  pub events : List StreamEvent
  pub captured_total : ℕ
  pub captured_bytes : ℕ

abbrev pub no_events : StreamEvents
no_events = record { events = []; captured_total = 0; captured_bytes = 0 }

-- `unwrap_or_default()`
abbrev pub bucket_or_default : Option StreamEvents → StreamEvents
bucket_or_default none = no_events
bucket_or_default (some b) = b

abbrev pub payload_len : StreamEvent → ℕ
payload_len e = byte_len (text_or e.payload [])

abbrev pub cut_event : ℕ → StreamEvent → StreamEvent
cut_event budget e = record e {
  payload = some (floor_prefix budget (text_or e.payload []));
  payload_bytes = some (payload_len e);
}

abbrev pub push_kept : StreamEvent → ℕ → StreamEvents → StreamEvents
push_kept e kept b = record {
  events = b.events ++ (e ∷ []);
  captured_total = b.captured_total + 1;
  captured_bytes = b.captured_bytes + kept;
}

-- `push_stream_event` in the bucket of the request; the second part says that nothing was lost.
unfoldable pub push_bucket : StreamEvent → StreamEvents → StreamEvents × Bool
unfolding byte_len floor_prefix
push_bucket e b =
    let budget = stream_payload_bytes - b.captured_bytes in
    if leb stream_event_limit b.captured_total
    then (b, false)
    else if leb (payload_len e) budget
    then (push_kept e (payload_len e) b, true)
    else if budget == 0
    then (b, false)
    else (push_kept (cut_event budget e) budget b, false)

unfoldable pub push_stream_event :
    Text → StreamEvent → List (Text × StreamEvents) → List (Text × StreamEvents) × Bool
unfolding push_bucket
push_stream_event id e streams =
    if is_none (get id streams) && leb network_entry_limit (length streams)
    then (streams, false)
    else (let pushed = push_bucket e (bucket_or_default (get id streams)) in
        (put id pushed.0 streams, pushed.1))

abbrev pub is_empty : List StreamEvent → Bool
is_empty [] = true
is_empty (_ ∷ _) = false

-- The buckets after a drain: the counts stay.
abbrev pub emptied : StreamEvents → StreamEvents
emptied b = record b { events = [] }

unfoldable pub empty_buckets : List (Text × StreamEvents) → List (Text × StreamEvents)
empty_buckets [] = []
empty_buckets ((id, b) ∷ rest) = (id, emptied b) ∷ empty_buckets rest

unfoldable pub drained : List (Text × StreamEvents) → List (Text × List StreamEvent)
drained [] = []
drained ((id, b) ∷ rest) =
    let others = drained rest in if is_empty b.events then others else (id, b.events) ∷ others

unfoldable pub take_stream_events :
    List (Text × StreamEvents) → List (Text × StreamEvents) × List (Text × List StreamEvent)
unfolding empty_buckets drained
take_stream_events streams = (empty_buckets streams, drained streams)
