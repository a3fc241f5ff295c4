-- ===== src/Readiness/Tally.antt =====
-- `assess` of sdk/fetch/pipeline/browser/readiness.rs: the loop over the requests.
use agent_first_http.Prelude.{
  ℕ, Text, Bool, true, false, not, ◌&&◌, ◌||◌, Option, none, some, List, [], ◌∷◌, ltb,
  if◌then◌else◌, text_eq, ◌++◌,
}
use agent_first_http.Network.Entry.{NetworkEntryState, finished, failed, NetworkEntry}
use agent_first_http.Network.Collector.{is_id, is_document}
use agent_first_http.Network.Snapshots.{ObservedRequest, is_unfinished, is_redirect_hop}
use agent_first_http.Readiness.Frames.{
  ReadinessState, ready, incomplete, RequestScope, main_document, target, ancillary, PendingRequest,
  Frame, ScopedFrame,
}

abbrev pub pending_limit : ℕ
pending_limit = 100

abbrev pub is_ancillary : RequestScope → Bool
is_ancillary ancillary = true
is_ancillary _ = false

abbrev pub is_target : RequestScope → Bool
is_target target = true
is_target _ = false

abbrev pub is_main : RequestScope → Bool
is_main main_document = true
is_main _ = false

abbrev pub is_ready : ReadinessState → Bool
is_ready ready = true
is_ready _ = false

abbrev pub is_finished : NetworkEntryState → Bool
is_finished finished = true
is_finished _ = false

abbrev pub is_failed : NetworkEntryState → Bool
is_failed failed = true
is_failed _ = false

-- `scopes.get(id)`: of frames with one identifier the last.
unfoldable pub frame_of : Text → List ScopedFrame → Option ScopedFrame
frame_of id [] = none
frame_of id (f ∷ rest) = elim (frame_of id rest) [
  | some g ↦ some g
  | none ↦ if text_eq f.frame.id id then some f else none
]

abbrev pub frame_at : Option Text → List ScopedFrame → Option ScopedFrame
frame_at none frames = none
frame_at (some id) frames = frame_of id frames

abbrev pub scope_or_unknown : Option ScopedFrame → RequestScope
scope_or_unknown none = RequestScope.unknown
scope_or_unknown (some f) = f.scope

unfoldable pub scope_of : Frame → List ScopedFrame → NetworkEntry → RequestScope
unfolding frame_of
scope_of root frames entry =
    if is_document entry.resource_type && is_id root.id entry.frame_id
    then main_document
    else scope_or_unknown (frame_at entry.frame_id frames)

abbrev pub frame_url : Option ScopedFrame → Option Text
frame_url none = none
frame_url (some f) = some f.frame.url

-- What the loop over the requests has found so far.
pub record Tally : Type 0 where
  pub target_network_quiet : Bool
  pub required_pending : Bool
  pub ancillary_ready : Bool
  pub main : ReadinessState
  pub pending : List PendingRequest

-- The live request of the root document with the root's loader.
unfoldable pub speaks_for_main : Frame → RequestScope → NetworkEntry → Bool
speaks_for_main root scope entry =
    is_main scope && (is_id root.loader_id entry.loader_id && not (is_redirect_hop entry))

unfoldable pub pending_request :
    Bool → Option ScopedFrame → RequestScope → ObservedRequest → PendingRequest
pending_request blocks_wait frame scope r = record {
  request_id = r.entry.request_id;
  request_url = r.entry.request_url;
  resource_type = r.entry.resource_type;
  frame_id = r.entry.frame_id;
  frame_url = frame_url frame;
  scope = scope;
  blocks_wait = blocks_wait;
  waited_ms = r.waited;
}

unfoldable pub count_request : Frame → List ScopedFrame → Bool → ℕ → ObservedRequest → Tally → Tally
unfolding scope_of speaks_for_main pending_request
count_request root frames strict idle_for r t =
    let scope = scope_of root frames r.entry in
    let unfinished = is_unfinished r.entry.state in
    let required = not (is_ancillary scope) in
    record {
      target_network_quiet =
          t.target_network_quiet && not (required && (unfinished || ltb r.idle_for idle_for));
      required_pending = t.required_pending || (required && unfinished);
      ancillary_ready =
          t.ancillary_ready && not (not required && (unfinished || is_failed r.entry.state));
      main =
          if speaks_for_main root scope r.entry
          then (if is_finished r.entry.state then ready else incomplete)
          else t.main;
      pending =
          if unfinished
          then t.pending
            ++ pending_request (strict || required) (frame_at r.entry.frame_id frames) scope r ∷ []
          else t.pending;
    }

-- The loop.
unfoldable pub count_requests :
    Frame → List ScopedFrame → Bool → ℕ → List ObservedRequest → Tally → Tally
unfolding count_request
count_requests root frames strict idle_for [] t = t
count_requests root frames strict idle_for (r ∷ rest) t =
    count_requests root frames strict idle_for rest (count_request root frames strict idle_for r t)

-- A frame that is not ancillary, and whose loader asked for the document.
unfoldable pub is_concerned : NetworkEntry → Option ScopedFrame → Bool
is_concerned entry none = true
is_concerned entry (some f) = not (is_ancillary f.scope) && is_id f.frame.loader_id entry.loader_id

unfoldable pub is_failed_document : List ScopedFrame → ObservedRequest → Bool
unfolding is_concerned
is_failed_document frames r =
    is_document r.entry.resource_type
    && (is_failed r.entry.state && is_concerned r.entry (frame_at r.entry.frame_id frames))
