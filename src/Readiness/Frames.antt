-- ===== src/Readiness/Frames.antt =====
-- The records of sdk/fetch/readiness.rs and of sdk/fetch/pipeline/browser/readiness.rs: the frames of a
-- page, what was measured in them, and what is reported of the readiness of the page.
use agent_first_http.Prelude.{ℕ, Text, Bool, Option, List}
use agent_first_http.Network.Snapshots.{ReadinessNetwork}
use agent_first_http.Readiness.Stability.{PageMetrics}

pub data ReadinessState : Type 0 where
  ready incomplete unknown blocked : ReadinessState

pub data RequestScope : Type 0 where
  main_document target ancillary unknown : RequestScope

pub record PendingRequest : Type 0 where
  pub request_id : Text
  pub request_url : Text
  pub resource_type : Text
  pub frame_id : Option Text
  pub frame_url : Option Text
  pub scope : RequestScope
  pub blocks_wait : Bool
  pub waited_ms : ℕ

pub record PageReadiness : Type 0 where
  pub wait_satisfied : Bool
  pub timed_out : Bool
  pub main_document : ReadinessState
  pub target_content : ReadinessState
  pub ancillary : ReadinessState
  pub target_selector : Text
  pub target_dom_stable : Bool
  pub target_text_stable : Bool
  pub observation_complete : Bool
  pub unobserved_frame_ids : List Text
  pub pending_requests : List PendingRequest
  pub pending_requests_truncated : Bool

pub record Frame : Type 0 where
  pub id : Text
  pub url : Text
  pub loader_id : Text

pub record Metrics : Type 0 where
  pub page : PageMetrics
  pub eligible : Bool
  pub document_ready : Bool

pub record ScopedFrame : Type 0 where
  pub frame : Frame
  pub scope : RequestScope
  pub metrics : Option Metrics

-- What `assess` is given: the root frame and the others, the requests, the metrics of the body, and the
-- frames that could not be inspected.
pub record Observation : Type 0 where
  pub root : ScopedFrame
  pub others : List ScopedFrame
  pub network : ReadinessNetwork
  pub body : PageMetrics
  pub unobserved : List Text

pub record Sample : Type 0 where
  pub body : PageMetrics
  pub target : PageMetrics
  pub target_eligible : Bool
  pub target_network_quiet : Bool
  pub readiness : PageReadiness
