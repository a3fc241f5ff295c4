-- ===== src/Fetch/Execute.antt =====
-- sdk/fetch/pipeline/mod.rs and the retry loop of sdk/fetch/mod.rs: which transport a fetch uses, in
-- what order, and how often. The outcome of each stage is an argument; what is sent is recorded.
use agent_first_http.Prelude.{
  ℕ, Text, String, codes, Bool, true, false, ◌||◌, Option, none, some, List, [], ◌∷◌, ◌++◌, ltb,
  if◌then◌else◌, eq_ignore_ascii_case,
}
use agent_first_http.Errors.{ErrorCode, invalid_argument, new, is_code, Result, ok, err}
use agent_first_http.Pages.Classification.{
  DocumentCopy, Body, classify_http_body, looks_like_empty_html_shell,
}

pub data RenderMode : Type 0 where
  none_ auto always : RenderMode

pub data RenderDecision : Type 0 where
  http_only browser : RenderDecision

-- Why the browser was used: the values of `EscalationReason`, the code of a challenge page, and
-- `requested_content_artifact`.
pub data Reason : Type 0 where
  challenge : ErrorCode → Reason
  empty_html_shell : Reason
  requested_content_artifact : Reason
  http_status : ℕ → Reason
  http_failed : ErrorCode → Reason

-- What of the builder the pipeline reads.
pub record FetchBuilder : Type 0 where
  pub render : RenderMode
  pub method : Option Text
  pub wants_content : Bool
  pub network_redact : Bool
  pub capture_ws : Bool
  pub capture_sse : Bool
  pub retry_attempts : ℕ

-- The fields of the trace that the pipeline writes.
pub record RenderTrace : Type 0 where
  pub render_mode : RenderMode
  pub render_decision : RenderDecision
  pub render_used : Bool
  pub escalation_reason : Option Reason
  pub sensitive_capture : List String
  pub cookie_jar_file : Option Text
  pub cookie_jar_warning : Option Text

pub record FetchResult : Type 0 where
  pub status : ℕ

pub record HttpOnlyOutcome : Type 0 where
  pub result : FetchResult
  pub body : Body
  pub content_type : Option Text

-- One use of a transport.
pub data Sent : Type 0 where
  over_http : Sent
  over_browser : Option Reason → Sent

-- The result of each stage, were it reached: the cookie jar's path and warning; whether the prepared
-- request evaluates a script after the wait; the HTTP attempt; the browser path.
pub record Stages : Type 0 where
  pub cookie_jar : Result (Option Text × Option Text)
  pub prepared : Result Bool
  pub http : Result HttpOnlyOutcome
  pub browser_path : Option Reason → Result FetchResult

-- What a run has come to: its result, its trace and what it sent, in order.
pub record Run : Type 0 where
  pub result : Result FetchResult
  pub trace : RenderTrace
  pub sent : List Sent

abbrev pub is_get_or_head : Option Text → Bool
is_get_or_head none = true
is_get_or_head (some m) =
    eq_ignore_ascii_case m (codes "GET") || eq_ignore_ascii_case m (codes "HEAD")

unfoldable pub method_is_idempotent : FetchBuilder → Bool
method_is_idempotent b = is_get_or_head b.method

unfoldable pub sensitive_capture : FetchBuilder → List String
sensitive_capture b =
    (if b.network_redact then [] else "network_redact_off_may_expose_tokens_or_pii" ∷ [])
    ++ ((if b.capture_ws then "capture_ws_may_expose_tokens_or_pii" ∷ [] else [])
        ++ (if b.capture_sse then "capture_sse_may_expose_tokens_or_pii" ∷ [] else []))

-- `trace.render_decision = HttpOnly; trace.render_used = false`
abbrev pub decide_http : RenderTrace → RenderTrace
decide_http t = record t { render_decision = http_only; render_used = false }

-- The escalation: the trace says so, and the browser path is the result.
unfoldable pub escalate : Stages → Reason → RenderTrace → List Sent → Run
escalate st reason t sent = record {
  result = st.browser_path (some reason);
  trace = record t {
    render_decision = browser;
    render_used = true;
    escalation_reason = some reason;
  };
  sent = sent ++ over_browser (some reason) ∷ [];
}

-- `reject_http_only_evaluate`
unfoldable pub reject_http_only_evaluate : Bool → Result (Unit {0})
reject_http_only_evaluate true = err (new invalid_argument)
reject_http_only_evaluate false = ok tt

abbrev pub then_result : Result (Unit {0}) → FetchResult → Result FetchResult
then_result (ok _) r = ok r
then_result (err e) r = err e

abbrev pub result_of : Result HttpOnlyOutcome → Result FetchResult
result_of (ok o) = ok o.result
result_of (err e) = err e

abbrev pub sent_http : List Sent
sent_http = over_http ∷ []

-- A success over HTTP in `Auto` mode, for a method that may be sent again.
unfoldable pub auto_success :
    (Text → DocumentCopy) → FetchBuilder → Stages → Bool → HttpOnlyOutcome → RenderTrace → Run
unfolding escalate
auto_success copy b st evaluates o t = elim (classify_http_body copy o.body o.content_type) [
  | some c ↦ escalate st (challenge c.code) t sent_http
  | none ↦
      if looks_like_empty_html_shell o.body o.content_type
      then escalate st empty_html_shell t sent_http
      else if b.wants_content
      then escalate st requested_content_artifact t sent_http
      else record {
        result = then_result (reject_http_only_evaluate evaluates) o.result;
        trace = t;
        sent = sent_http;
      }
]

unfoldable pub auto_resendable :
    (Text → DocumentCopy)
    → FetchBuilder
    → Stages
    → Bool
    → Result HttpOnlyOutcome
    → RenderTrace
    → Run
unfolding auto_success escalate
auto_resendable copy b st evaluates (ok o) t =
    if ltb o.result.status 400
    then auto_success copy b st evaluates o t
    else escalate st (http_status o.result.status) t sent_http
auto_resendable copy b st evaluates (err e) t =
    if is_code e.error_code invalid_argument
    then record { result = err e; trace = t; sent = sent_http }
    else escalate st (http_failed e.error_code) t sent_http

-- The arm of `RenderMode::Auto`.
unfoldable pub execute_auto :
    (Text → DocumentCopy) → FetchBuilder → Stages → Bool → RenderTrace → Run
unfolding auto_resendable method_is_idempotent
execute_auto copy b st evaluates t =
    if method_is_idempotent b
    then auto_resendable copy b st evaluates st.http (decide_http t)
    else elim (reject_http_only_evaluate evaluates) [
      | err e ↦ record { result = err e; trace = decide_http t; sent = [] }
      | ok _ ↦ record { result = result_of st.http; trace = decide_http t; sent = sent_http }
    ]

unfoldable pub execute_http : Stages → Bool → RenderTrace → Run
execute_http st evaluates t = elim (reject_http_only_evaluate evaluates) [
  | err e ↦ record { result = err e; trace = decide_http t; sent = [] }
  | ok _ ↦ record { result = result_of st.http; trace = decide_http t; sent = sent_http }
]

unfoldable pub execute_always : Stages → RenderTrace → Run
execute_always st t = record {
  result = st.browser_path none;
  trace = record t { render_decision = browser; render_used = true };
  sent = over_browser none ∷ [];
}

-- The `match` on the render mode.
unfoldable pub execute_mode :
    (Text → DocumentCopy) → RenderMode → FetchBuilder → Stages → Bool → RenderTrace → Run
unfolding execute_http execute_auto execute_always
execute_mode copy none_ b st evaluates t = execute_http st evaluates t
execute_mode copy auto b st evaluates t = execute_auto copy b st evaluates t
execute_mode copy always b st evaluates t = execute_always st t

-- The trace that `FetchDeadline::new` makes, with what `execute` writes first.
abbrev pub first_trace : FetchBuilder → RenderTrace
first_trace b = record {
  render_mode = b.render;
  render_decision = http_only;
  render_used = false;
  escalation_reason = none;
  sensitive_capture = sensitive_capture b;
  cookie_jar_file = none;
  cookie_jar_warning = none;
}

unfoldable pub execute_prepared :
    (Text → DocumentCopy) → FetchBuilder → Stages → Result Bool → RenderTrace → Run
unfolding execute_mode
execute_prepared copy b st (err e) t = record { result = err e; trace = t; sent = [] }
execute_prepared copy b st (ok evaluates) t = execute_mode copy b.render b st evaluates t

unfoldable pub execute_with_jar :
    (Text → DocumentCopy) → FetchBuilder → Stages → Result (Option Text × Option Text) → Run
unfolding execute_prepared
execute_with_jar copy b st (err e) = record { result = err e; trace = first_trace b; sent = [] }
execute_with_jar copy b st (ok (path, warning)) =
    execute_prepared copy b st st.prepared
      (record (first_trace b) { cookie_jar_file = path; cookie_jar_warning = warning })

unfoldable pub execute : (Text → DocumentCopy) → FetchBuilder → Stages → Run
unfolding execute_with_jar
execute copy b st = execute_with_jar copy b st st.cookie_jar
