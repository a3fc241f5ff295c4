-- ===== src/Readiness/Assess.antt =====
-- `assess` and `unknown_readiness` of sdk/fetch/pipeline/browser/readiness.rs. The hasher of the
-- standard library is an argument.
use agent_first_http.Prelude.{
  ℕ, ◌+◌, Text, Bool, true, false, not, ◌&&◌, ◌||◌, Option, none, some, List, [], ◌∷◌, ltb, ◌==◌,
  if◌then◌else◌, length, any, take,
}
use agent_first_http.Network.Snapshots.{ObservedRequest, ReadinessNetwork, is_unfinished}
use agent_first_http.Request.Options.{is_nil}
use agent_first_http.Readiness.Frames.{
  ReadinessState, ready, incomplete, RequestScope, PendingRequest, PageReadiness, Metrics,
  ScopedFrame, Observation, Sample,
}
use agent_first_http.Readiness.Tally.{
  pending_limit, is_target, is_ready, Tally, pending_request, count_requests, is_failed_document,
}

-- The sums over the target's frames.
pub record Measured : Type 0 where
  pub eligible : Bool
  pub text_len : ℕ
  pub node_count : ℕ
  pub text_parts : List (Text × ℕ)
  pub dom_parts : List (Text × ℕ)

abbrev pub add_metrics : Bool → Text → Option Metrics → Measured → Measured
add_metrics strict id none m = record m { eligible = false }
add_metrics strict id (some x) m = record {
  eligible = m.eligible && (x.document_ready && (strict || x.eligible));
  text_len = x.page.text_len + m.text_len;
  node_count = x.page.node_count + m.node_count;
  text_parts = (id, x.page.text_hash) ∷ m.text_parts;
  dom_parts = (id, x.page.dom_hash) ∷ m.dom_parts;
}

-- The loop over the target's frames; what is summed does not depend on their order, and the parts come
-- in the order of the frames.
unfoldable pub measure_frames : Bool → Bool → List ScopedFrame → Measured
measure_frames strict eligible [] = record {
  eligible = eligible;
  text_len = 0;
  node_count = 0;
  text_parts = [];
  dom_parts = [];
}
measure_frames strict eligible (f ∷ rest) =
    let others = measure_frames strict eligible rest in
    if is_target f.scope then add_metrics strict f.frame.id f.metrics others else others

-- `<` on texts, by code points
unfoldable pub text_lt : Text → Text → Bool
text_lt [] [] = false
text_lt [] (c ∷ t) = true
text_lt (c ∷ s) [] = false
text_lt (c ∷ s) (d ∷ t) = ltb c d || (c == d && text_lt s t)

-- The order of `(!blocks_wait, request_id)`.
unfoldable pub comes_before : PendingRequest → PendingRequest → Bool
unfolding text_lt
comes_before a b =
    (a.blocks_wait && not b.blocks_wait)
    || ((not a.blocks_wait || b.blocks_wait)
        && ((a.blocks_wait || not b.blocks_wait) && text_lt a.request_id b.request_id))

unfoldable pub insert_pending : PendingRequest → List PendingRequest → List PendingRequest
unfolding comes_before
insert_pending a [] = a ∷ []
insert_pending a (b ∷ rest) = if comes_before b a then b ∷ insert_pending a rest else a ∷ b ∷ rest

-- `sort_by`
unfoldable pub sort_pending : List PendingRequest → List PendingRequest
unfolding insert_pending
sort_pending [] = []
sort_pending (a ∷ rest) = insert_pending a (sort_pending rest)

abbrev pub start_tally : Bool → Tally
start_tally complete = record {
  target_network_quiet = complete;
  required_pending = false;
  ancillary_ready = complete;
  main = ReadinessState.unknown;
  pending = [];
}

abbrev pub tally_of : Bool → ℕ → Observation → Tally
tally_of strict idle_for o =
    count_requests o.root.frame (o.root ∷ o.others) strict idle_for o.network.requests
      (start_tally o.network.complete)

abbrev pub is_complete : Observation → Bool
is_complete o = o.network.complete && is_nil o.unobserved

-- `eligible` before the frames are looked at.
abbrev pub may_be_eligible : Bool → ℕ → Observation → Bool
may_be_eligible strict idle_for o =
    is_complete o
    && (not (any (is_failed_document (o.root ∷ o.others)) o.network.requests)
        && is_ready (tally_of strict idle_for o).main)

abbrev pub measured_of : Bool → ℕ → Observation → Measured
measured_of strict idle_for o =
    measure_frames strict (may_be_eligible strict idle_for o) (o.root ∷ o.others)

unfoldable pub assess : (List (Text × ℕ) → ℕ) → Text → Bool → ℕ → Observation → Sample
unfolding count_requests is_failed_document measure_frames sort_pending
assess combine_hash selector strict idle_for o =
    let t = tally_of strict idle_for o in
    let m = measured_of strict idle_for o in
    let pending = sort_pending t.pending in
    record {
      body = o.body;
      target = record {
        text_len = m.text_len;
        text_hash = combine_hash m.text_parts;
        node_count = m.node_count;
        dom_hash = combine_hash m.dom_parts;
      };
      target_eligible = m.eligible && (strict || ltb 0 m.text_len);
      target_network_quiet = t.target_network_quiet;
      readiness = record {
        wait_satisfied = false;
        timed_out = false;
        main_document = t.main;
        target_content =
            if is_complete o || t.required_pending then incomplete else ReadinessState.unknown;
        ancillary =
            if not o.network.complete
            then ReadinessState.unknown
            else if t.ancillary_ready
            then ready
            else incomplete;
        target_selector = selector;
        target_dom_stable = false;
        target_text_stable = false;
        observation_complete = is_complete o;
        unobserved_frame_ids = o.unobserved;
        pending_requests = take pending_limit pending;
        pending_requests_truncated = ltb pending_limit (length pending);
      };
    }

-- The requests that are under way, whose frames nobody looked at.
unfoldable pub pending_unknown : List ObservedRequest → List PendingRequest
unfolding pending_request
pending_unknown [] = []
pending_unknown (r ∷ rest) =
    let others = pending_unknown rest in
    if is_unfinished r.entry.state
    then pending_request true none RequestScope.unknown r ∷ others
    else others

unfoldable pub unknown_readiness : Text → ReadinessNetwork → PageReadiness
unfolding pending_unknown sort_pending
unknown_readiness selector network =
    let pending = sort_pending (pending_unknown network.requests) in
    record {
      wait_satisfied = false;
      timed_out = true;
      main_document = ReadinessState.unknown;
      target_content = ReadinessState.unknown;
      ancillary = ReadinessState.unknown;
      target_selector = selector;
      target_dom_stable = false;
      target_text_stable = false;
      observation_complete = false;
      unobserved_frame_ids = [];
      pending_requests = take pending_limit pending;
      pending_requests_truncated = ltb pending_limit (length pending);
    }
