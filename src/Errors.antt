-- ===== src/Errors.antt =====
-- shared/error.rs: the stable error codes, their default retryability and their wire names, and the
-- error value that every failure path returns. The human-readable `detail` of an error is left out.
use agent_first_http.Prelude.{String, Bool, true, false, ◌≡◌, refl}

-- The wire name of each code is its constructor's name here.
pub data ErrorCode : Type 0 where
  navigation_timeout render_unavailable host_unreachable dns_resolution_failed : ErrorCode
  target_unreachable tls_error profile_locked browser_launch_failed cdp_unavailable : ErrorCode
  cdp_error cdp_timeout wait_selector_unmatched backend_unsupported artifact_capture_failed :
      ErrorCode
  artifact_capture_timeout artifact_empty artifact_tiny bot_wall_detected : ErrorCode
  security_challenge_detected network_not_idle navigation_stale observation_empty : ErrorCode
  pending_xhr_at_capture readiness_timeout takeover_content_unverified : ErrorCode
  network_body_truncated cookie_rejected profile_not_found profile_delete_locked : ErrorCode
  profile_invalid_name profile_root_unavailable invalid_argument invalid_endpoint io_error :
      ErrorCode
  internal_error : ErrorCode

-- `ErrorCode::retryable_default`
unfoldable pub retryable_default : ErrorCode → Bool
retryable_default navigation_timeout = true
retryable_default render_unavailable = false
retryable_default host_unreachable = true
retryable_default dns_resolution_failed = true
retryable_default target_unreachable = true
retryable_default tls_error = false
retryable_default profile_locked = false
retryable_default browser_launch_failed = false
retryable_default cdp_unavailable = false
retryable_default cdp_error = false
retryable_default cdp_timeout = true
retryable_default wait_selector_unmatched = false
retryable_default backend_unsupported = false
retryable_default artifact_capture_failed = false
retryable_default artifact_capture_timeout = false
retryable_default artifact_empty = false
retryable_default artifact_tiny = false
retryable_default bot_wall_detected = false
retryable_default security_challenge_detected = false
retryable_default network_not_idle = false
retryable_default navigation_stale = false
retryable_default observation_empty = false
retryable_default pending_xhr_at_capture = false
retryable_default readiness_timeout = false
retryable_default takeover_content_unverified = false
retryable_default network_body_truncated = false
retryable_default cookie_rejected = false
retryable_default profile_not_found = false
retryable_default profile_delete_locked = false
retryable_default profile_invalid_name = false
retryable_default profile_root_unavailable = false
retryable_default invalid_argument = false
retryable_default invalid_endpoint = false
retryable_default io_error = true
retryable_default internal_error = false

-- `ErrorCode::as_str`
unfoldable pub as_str : ErrorCode → String
as_str navigation_timeout = "navigation_timeout"
as_str render_unavailable = "render_unavailable"
as_str host_unreachable = "host_unreachable"
as_str dns_resolution_failed = "dns_resolution_failed"
as_str target_unreachable = "target_unreachable"
as_str tls_error = "tls_error"
as_str profile_locked = "profile_locked"
as_str browser_launch_failed = "browser_launch_failed"
as_str cdp_unavailable = "cdp_unavailable"
as_str cdp_error = "cdp_error"
as_str cdp_timeout = "cdp_timeout"
as_str wait_selector_unmatched = "wait_selector_unmatched"
as_str backend_unsupported = "backend_unsupported"
as_str artifact_capture_failed = "artifact_capture_failed"
as_str artifact_capture_timeout = "artifact_capture_timeout"
as_str artifact_empty = "artifact_empty"
as_str artifact_tiny = "artifact_tiny"
as_str bot_wall_detected = "bot_wall_detected"
as_str security_challenge_detected = "security_challenge_detected"
as_str network_not_idle = "network_not_idle"
as_str navigation_stale = "navigation_stale"
as_str observation_empty = "observation_empty"
as_str pending_xhr_at_capture = "pending_xhr_at_capture"
as_str readiness_timeout = "readiness_timeout"
as_str takeover_content_unverified = "takeover_content_unverified"
as_str network_body_truncated = "network_body_truncated"
as_str cookie_rejected = "cookie_rejected"
as_str profile_not_found = "profile_not_found"
as_str profile_delete_locked = "profile_delete_locked"
as_str profile_invalid_name = "profile_invalid_name"
as_str profile_root_unavailable = "profile_root_unavailable"
as_str invalid_argument = "invalid_argument"
as_str invalid_endpoint = "invalid_endpoint"
as_str io_error = "io_error"
as_str internal_error = "internal_error"

pub record Error : Type 0 where
  pub error_code : ErrorCode
  pub retryable : Bool

-- `Error::new`
unfoldable pub new : ErrorCode → Error
unfolding retryable_default
new code = record { error_code = code; retryable = retryable_default code }

-- `Error::with_retryable`
unfoldable pub with_retryable : Error → Bool → Error
with_retryable e r = record e { retryable = r }

-- `Result<T, Error>`
pub data Result {ℓ} (T : Type ℓ) : Type ℓ where
  err : Error → Result T
  ok : T → Result T

-- The operator `?`, and a step whose value is not used.
infixl 5 ◌>>=◌ ◌>>◌
abbrev pub ◌>>=◌ {ℓ κ} : {S : Type ℓ} {T : Type κ} → Result S → (S → Result T) → Result T
step >>= next = elim step [ err failure ↦ err failure | ok value ↦ next value ]

abbrev pub ◌>>◌ {κ} : {T : Type κ} → Result (Unit {0}) → Result T → Result T
first >> second = first >>= (λ done. second)

pub ErrorCode-discrete : Discrete ErrorCode
ErrorCode-discrete = hlevel

-- `code == other`
unfoldable pub is_code : ErrorCode → ErrorCode → Bool
unfolding ErrorCode-discrete
is_code a b = elim (ErrorCode-discrete a b) [ yes _ ↦ true | no _ ↦ false ]

-- Both steps of a chain that succeeds have succeeded.
pub >>=-ok {ℓ κ} :
    {S : Type ℓ} {T : Type κ} (step : Result S) (next : S → Result T) {t : T}
    → (step >>= next) ≡ ok t
    → (s : S) × (step ≡ ok s) × (next s ≡ ok t)
>>=-ok (err failure) next h = cc
>>=-ok (ok value) next h = (value, refl, h)
