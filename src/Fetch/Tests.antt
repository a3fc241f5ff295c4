-- ===== src/Fetch/Tests.antt =====
-- A fetch at concrete inputs.
use agent_first_http.Prelude.{
  ℕ, ◌≡◌, refl, Text, codes, true, false, none, some, [], ◌∷◌, ◌==◌, if◌then◌else◌,
  eq_ignore_ascii_case, text_eq, to_ascii_lowercase,
}
use agent_first_http.Errors.{new, io_error, Result, ok, err, is_code}
use agent_first_http.Pages.Classification.{DocumentCopy}
use agent_first_http.Fetch.Execute.{
  auto, FetchBuilder, FetchResult, Stages, execute, http_failed, over_http, over_browser,
  method_is_idempotent, reject_http_only_evaluate,
}
use agent_first_http.Fetch.Retry.{send_loop, send_detailed, max_attempts_of}
use agent_first_http.Fetch.Attempts.{Delivered, send_detailed_lem}
use agent_first_http.Fetch.Transports.{Account, execute-Account}

abbrev builder : FetchBuilder
builder = record {
  render = auto;
  method = some (codes "get");
  wants_content = false;
  network_redact = true;
  capture_ws = false;
  capture_sse = true;
  retry_attempts = 2;
}

abbrev plain_copy : Text → DocumentCopy
plain_copy html = record { title = []; text = html }

abbrev failing : Stages
failing = record {
  cookie_jar = ok (none, none);
  prepared = ok false;
  http = err (new io_error);
  browser_path = λ why. ok (record { status = 200 });
}

-- An HTTP failure sends a GET to the browser.
failing_escalates :
    (execute plain_copy builder failing).sent
    ≡ over_http ∷ over_browser (some (http_failed io_error)) ∷ []
unfolding execute method_is_idempotent is_code new eq_ignore_ascii_case text_eq to_ascii_lowercase
failing_escalates = refl

-- A POST stops at the failure.
failing_post_stops :
    (execute plain_copy (record builder { method = some (codes "POST") }) failing).sent
    ≡ over_http ∷ []
unfolding execute method_is_idempotent eq_ignore_ascii_case text_eq to_ascii_lowercase
    reject_http_only_evaluate
failing_post_stops = refl

execute-Account_example :
    Account plain_copy builder failing (err (new io_error)) (execute plain_copy builder failing)
execute-Account_example = execute-Account plain_copy builder failing

abbrev third_time : ℕ → Result FetchResult
third_time i =
    if i == 2
    then ok (record { status = 200 })
    else err (record { error_code = io_error; retryable = true })

third_time_sends : send_detailed third_time builder ≡ some (ok (record { status = 200 }), 3)
unfolding send_detailed method_is_idempotent eq_ignore_ascii_case text_eq to_ascii_lowercase
    send_loop
third_time_sends = refl

send_detailed_lem_example :
    (r : Result FetchResult) × (n : ℕ) × (send_detailed third_time builder ≡ some (r, n))
    × Delivered third_time (if method_is_idempotent builder then max_attempts_of builder else 1) r n
send_detailed_lem_example = send_detailed_lem third_time builder
