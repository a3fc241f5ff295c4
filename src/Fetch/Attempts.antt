-- ===== src/Fetch/Attempts.antt =====
-- How often the retry loop sends, and which result it returns.
use agent_first_http.Prelude.{
  ℕ, zero, suc, ◌+◌, ◌-◌, ◌≤◌, ◌<◌, ◌≡◌, inl, inr, Bool, true, false, not, ◌&&◌, ◌||◌, Option, some,
  ltb, ◌==◌, if◌then◌else◌, Bool-cases, arith,
}
use agent_first_http.Errors.{Result, ok, err}
use agent_first_http.Fetch.Execute.{FetchBuilder, FetchResult, method_is_idempotent}
use agent_first_http.Fetch.Retry.{send_loop, send_detailed, max_attempts_of}

abbrev pub is_retryable : Result FetchResult → Bool
is_retryable (ok _) = false
is_retryable (err e) = e.retryable

module _ (once : ℕ → Result FetchResult) where
  -- `n` attempts were made of at most `most`, the last of which gave `r`.
  pub record Delivered (most : ℕ) (r : Result FetchResult) (n : ℕ) : Type 0 where
    pub at_least_once : 1 ≤ n
    pub at_most : n ≤ most
    pub last : once (n - 1) ≡ r
    pub retried : (i : ℕ) → suc i < n → is_retryable (once i) ≡ true
    pub persistent : is_retryable r ≡ true → n ≡ most

  abbrev Outcome : ℕ → Option (Result FetchResult × ℕ) → Type 0
  Outcome most o = (r : Result FetchResult) × (n : ℕ) × (o ≡ some (r, n)) × Delivered most r n

  stop_here :
      (most attempt : ℕ)
      → attempt < most
      → ((i : ℕ) → i < attempt → is_retryable (once i) ≡ true)
      → (is_retryable (once attempt) ≡ true → attempt + 1 ≡ most)
      → Delivered most (once attempt) (attempt + 1)
  stop_here most attempt h before given_up = record {
    at_least_once = omega arith;
    at_most = omega arith;
    last = ground arith;
    retried = λ i p. before i (omega arith);
    persistent = given_up;
  }

  retried_until :
      (attempt : ℕ)
      → ((i : ℕ) → i < attempt → is_retryable (once i) ≡ true)
      → is_retryable (once attempt) ≡ true
      → (i : ℕ) → i < attempt + 1
      → is_retryable (once i) ≡ true
  retried_until attempt before r i p = ground (arith, before i)

  again : ℕ → ℕ → Bool
  again most attempt = is_retryable (once attempt) && ltb (attempt + 1) most

  send_loop-again :
      (most fuel attempt : ℕ)
      → again most attempt ≡ true
      → send_loop once most (suc fuel) attempt ≡ send_loop once most fuel (attempt + 1)
  unfolding send_loop again
  send_loop-again most fuel attempt h = ground arith

  send_loop-stop :
      (most fuel attempt : ℕ)
      → again most attempt ≡ false
      → send_loop once most (suc fuel) attempt ≡ some (once attempt, attempt + 1)
  unfolding send_loop again
  send_loop-stop most fuel attempt h = ground arith

  send_loop-Outcome :
      (most fuel attempt : ℕ)
      → attempt < most
      → most ≤ attempt + fuel
      → ((i : ℕ) → i < attempt → is_retryable (once i) ≡ true)
      → Outcome most (send_loop once most fuel attempt)
  unfolding again
  send_loop-Outcome most zero attempt h f before = absurd (omega arith)
  send_loop-Outcome most (suc fuel) attempt h f before = elim (Bool-cases (again most attempt)) [
    | inl e ↦ rw (send_loop-again most fuel attempt e) (
        send_loop-Outcome most fuel (attempt + 1) (ground arith) (omega arith)
          (λ i p. retried_until attempt before (ground arith) i p))
    | inr e ↦ (
      once attempt,
      attempt + 1,
      send_loop-stop most fuel attempt e,
      stop_here most attempt h before (λ r. ground arith),
    )
  ]

idempotent :
    (b : FetchBuilder)
    → (b.retry_attempts == 0 || not (method_is_idempotent b)) ≡ false
    → method_is_idempotent b ≡ true
idempotent b h = ground arith

once-Delivered :
    (once : ℕ → Result FetchResult) (b : FetchBuilder)
    → (b.retry_attempts == 0 || not (method_is_idempotent b)) ≡ true
    → Delivered once (if method_is_idempotent b then max_attempts_of b else 1) (once 0) 1
once-Delivered once b h =
    let one : (if method_is_idempotent b then max_attempts_of b else 1) ≡ 1 = ground arith in
    rw one (stop_here once 1 0 (omega arith) (λ i p. absurd (omega arith)) (λ r. omega arith))

-- Sending always returns: the result of the last of at least 1 and at most `attempts` + 1 attempts (one
-- less at the largest u32), each earlier one a retryable error; a retryable error is returned only
-- after all of them. A method that is not idempotent is sent once.
pub send_detailed_lem :
    (once : ℕ → Result FetchResult) (b : FetchBuilder)
    → (r : Result FetchResult) × (n : ℕ) × (send_detailed once b ≡ some (r, n))
      × Delivered once (if method_is_idempotent b then max_attempts_of b else 1) r n
unfolding send_detailed
send_detailed_lem once b =
    elim (Bool-cases (b.retry_attempts == 0 || not (method_is_idempotent b))) [
      | inl e ↦ (once 0, 1, rw e, once-Delivered once b e)
      | inr e ↦
          rw (e, idempotent b e)
            (send_loop-Outcome once (max_attempts_of b) (max_attempts_of b) 0 (ground arith)
              (omega arith) (λ i p. absurd (omega arith)))
    ]
