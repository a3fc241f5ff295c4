-- ===== src/Fetch/Retry.antt =====
-- The retry loop of sdk/fetch/mod.rs. The result of each attempt is an argument, by its number.
use agent_first_http.Prelude.{
  ℕ, zero, suc, ◌+◌, not, ◌&&◌, ◌||◌, Option, none, some, ltb, ◌==◌, if◌then◌else◌, min,
}
use agent_first_http.Errors.{Result, ok, err}
use agent_first_http.Fetch.Execute.{FetchBuilder, FetchResult, method_is_idempotent}

abbrev pub u32_max : ℕ
u32_max = 4294967295

-- `attempts.saturating_add(1)`
abbrev pub max_attempts_of : FetchBuilder → ℕ
max_attempts_of b = min (b.retry_attempts + 1) u32_max

-- The loop: the result, and how many attempts were made; `none` if the fuel ran out.
unfoldable pub send_loop : (ℕ → Result FetchResult) → ℕ → ℕ → ℕ → Option (Result FetchResult × ℕ)
send_loop once max_attempts zero attempt = none
send_loop once max_attempts (suc fuel) attempt =
    let rest = send_loop once max_attempts fuel (attempt + 1) in
    elim (once attempt) [
      | ok r ↦ some (ok r, attempt + 1)
      | err e ↦
          if e.retryable && ltb (attempt + 1) max_attempts then rest else some (err e, attempt + 1)
    ]

-- The loop makes at most `max_attempts` rounds, so that is the fuel.
unfoldable pub send_detailed :
    (ℕ → Result FetchResult) → FetchBuilder → Option (Result FetchResult × ℕ)
send_detailed once b =
    if b.retry_attempts == 0 || not (method_is_idempotent b)
    then some (once 0, 1)
    else send_loop once (max_attempts_of b) (max_attempts_of b) 0
