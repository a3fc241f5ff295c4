-- ===== src/Network/Entry.antt =====
-- sdk/fetch/artifacts/network.rs: the entry of a request; and the events of the browser, each with
-- what the code reads of its JSON parameters.
use agent_first_http.Prelude.{ℕ, Text, codes, Bool, false, Option, none, List, []}

pub data NetworkEntryState : Type 0 where
  pending responded finished failed : NetworkEntryState

pub data Hint : Type 0 where
  flag : Bool → Hint
  text : Text → Hint
  number : ℕ → Hint

pub record NetworkTiming : Type 0 where
  pub start_monotonic_ms : ℕ
  pub end_monotonic_ms : Option ℕ

pub record NetworkEntry : Type 0 where
  pub request_id : Text
  pub state : NetworkEntryState
  pub redirect_from_request_id : Option Text
  pub frame_id : Option Text
  pub loader_id : Option Text
  pub resource_type : Text
  pub request_url : Text
  pub method : Text
  pub initiator : Option Text
  pub status : Option ℕ
  pub mime_type : Option Text
  pub request_headers : List (Text × Text)
  pub response_headers : List (Text × Text)
  pub request_post_data_present : Bool
  pub request_post_data_size_bytes : Option ℕ
  pub body_file : Option Text
  pub timing : NetworkTiming
  pub failure : Option Text
  pub hints : List (Text × Hint)

unfoldable pub default_entry : NetworkEntry
default_entry = record {
  request_id = [];
  state = pending;
  redirect_from_request_id = none;
  frame_id = none;
  loader_id = none;
  resource_type = codes "Other";
  request_url = [];
  method = codes "GET";
  initiator = none;
  status = none;
  mime_type = none;
  request_headers = [];
  response_headers = [];
  request_post_data_present = false;
  request_post_data_size_bytes = none;
  body_file = none;
  timing = record { start_monotonic_ms = 0; end_monotonic_ms = none };
  failure = none;
  hints = [];
}

-- `postData`: its length in bytes, and if it is JSON, its `operationName` and whether it has `query`.
pub record PostData : Type 0 where
  pub len : ℕ
  pub json : Option (Option Text × Bool)

-- `params["request"]`
pub record SentRequest : Type 0 where
  pub url : Option Text
  pub method : Option Text
  pub headers : List (Text × Text)
  pub post_data : Option PostData

-- `params["response"]` and `params["redirectResponse"]`. A status is already a `u16`.
pub record Response : Type 0 where
  pub status : Option ℕ
  pub mime_type : Option Text
  pub headers : List (Text × Text)
  pub protocol : Option Text
  pub remote_ip_address : Option Text
  pub encoded_data_length : Option ℕ

-- The methods that the collector tells apart; another one comes with whether it is of `Network`.
pub data Method : Type 0 where
  request_will_be_sent response_received loading_finished loading_failed : Method
  request_served_from_cache : Method
  other : Bool → Method

-- A timestamp is in milliseconds, as the code converts it.
pub record CdpEvent : Type 0 where
  pub session_id : Option Text
  pub method : Method
  pub request_id : Option Text
  pub frame_id : Option Text
  pub loader_id : Option Text
  pub type_ : Option Text
  pub timestamp : Option ℕ
  pub initiator : Option Text
  pub request : SentRequest
  pub redirect_response : Option Response
  pub response : Response
  pub encoded_data_length : Option ℕ
  pub error_text : Option Text
