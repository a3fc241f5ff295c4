-- ===== src/Readiness/Loop.antt =====
-- `wait_for_readiness` of sdk/fetch/pipeline/browser/wait.rs: the loop that samples a page until it is
-- ready or the time is up. A round has the time at its start and what came of the attempt to sample.
use agent_first_http.Prelude.{
  ℕ, ◌-◌, min, Text, codes, Bool, true, false, not, ◌&&◌, ◌||◌, Option, none, some, List, [], ◌∷◌,
  leb, ltb, if◌then◌else◌, ◌≡◌, refl, ◌⊎◌, inl, inr,
}
use agent_first_http.Errors.{Error, invalid_argument, is_code, Result, ok, err}
use agent_first_http.Network.Snapshots.{ReadinessNetwork}
use agent_first_http.Readiness.Stability.{StabilityTracker, track_from, observe}
use agent_first_http.Readiness.Frames.{ReadinessState, ready, PageReadiness, Observation, Sample}
use agent_first_http.Readiness.Assess.{assess, unknown_readiness}
use agent_first_http.Readiness.Wait.{Wait, auto, selector_stable, mode_name}

pub record WaitOutcome : Type 0 where
  pub wait_mode : Text
  pub wait_satisfied_by : Option Text
  pub network_quiet : Option Bool
  pub dom_stable : Option Bool
  pub text_stable : Option Bool
  pub capture_reason : Text
  pub readiness_timed_out : Bool
  pub readiness : Option PageReadiness

-- `WaitOutcome::satisfied`
unfoldable pub satisfied : Wait → Text → WaitOutcome
satisfied wait by = record {
  wait_mode = mode_name wait;
  wait_satisfied_by = some by;
  network_quiet = none;
  dom_stable = none;
  text_stable = none;
  capture_reason = codes "wait_satisfied";
  readiness_timed_out = false;
  readiness = none;
}

-- The sample with whether the whole network was quiet after it; an error; or no answer in time.
pub data Attempt : Type 0 where
  sampled : Observation → Bool → Attempt
  refused : Error → Attempt
  overran : Attempt

-- `requests` are those that the collector knew, should the loop end without a sample.
pub record Round : Type 0 where
  pub now : ℕ
  pub attempt : Attempt
  pub requests : ReadinessNetwork

-- How long `sleep_until_or_deadline` sleeps.
unfoldable pub sleep_until_or_deadline : ℕ → ℕ → ℕ → ℕ
sleep_until_or_deadline deadline now duration = min duration (deadline - now)

-- What stays the same: the condition, its tuning, the end of the time, and the hasher.
pub record Plan : Type 0 where
  pub wait : Wait
  pub idle_for : ℕ
  pub stable_for : ℕ
  pub wait_deadline : ℕ
  pub combine_hash : List (Text × ℕ) → ℕ

abbrev pub is_strict : Wait → Bool
is_strict auto = true
is_strict _ = false

abbrev pub selector_of : Wait → Text
selector_of (selector_stable s) = s
selector_of _ = codes "body"

pub record Waiting : Type 0 where
  pub body_tracker : StabilityTracker
  pub target_tracker : StabilityTracker
  pub outcome : WaitOutcome

unfoldable pub start_waiting : Wait → ℕ → ℕ → Waiting
start_waiting wait body_start target_start = record {
  body_tracker = track_from body_start;
  target_tracker = track_from target_start;
  outcome = record {
    wait_mode = mode_name wait;
    wait_satisfied_by = none;
    network_quiet = some false;
    dom_stable = some false;
    text_stable = some false;
    capture_reason = codes "readiness_timeout";
    readiness_timed_out = true;
    readiness = none;
  };
}

abbrev pub readiness_or : PageReadiness → Option PageReadiness → PageReadiness
readiness_or d none = d
readiness_or d (some r) = r

-- The end without success: the last sample, or what is known without one.
unfoldable pub time_out : Plan → ReadinessNetwork → WaitOutcome → WaitOutcome
time_out p requests o = record o {
  readiness =
      some (record (readiness_or (unknown_readiness (selector_of p.wait) requests) o.readiness) {
        timed_out = true;
      });
}

-- What a round leads to.
pub data Next : Type 0 where
  stop : Result WaitOutcome → Next
  go : Waiting → Next

abbrev pub track_target : Plan → ℕ → Sample → StabilityTracker → StabilityTracker
track_target p now s t =
    if s.target_eligible then observe s.target p.stable_for now t else track_from now

unfoldable pub is_target_ready : Sample → StabilityTracker → Bool
is_target_ready s t =
    s.target_eligible && (s.target_network_quiet && (t.dom_stable && t.text_stable))

abbrev pub reported : Sample → StabilityTracker → Bool → PageReadiness
reported s t done = record (s.readiness) {
  target_dom_stable = t.dom_stable;
  target_text_stable = t.text_stable;
  target_content = if is_target_ready s t then ready else s.readiness.target_content;
  wait_satisfied = done;
}

abbrev pub satisfied_by : Bool → Text
satisfied_by true = codes "network_quiet_dom_text_stable"
satisfied_by false = codes "selector_stable"

unfoldable pub after_sample : Plan → ℕ → Sample → Bool → Waiting → Next
unfolding is_target_ready
after_sample p now s quiet w =
    let body = observe s.body p.stable_for now w.body_tracker in
    let target_tracker = track_target p now s w.target_tracker in
    let done = is_target_ready s target_tracker && (not (is_strict p.wait) || quiet) in
    let outcome = record (w.outcome) {
      network_quiet = some quiet;
      dom_stable = some body.dom_stable;
      text_stable = some body.text_stable;
      readiness = some (reported s target_tracker done);
    } in
    if done
    then stop (
        ok (record outcome {
          wait_satisfied_by = some (satisfied_by (is_strict p.wait));
          capture_reason = codes "wait_satisfied";
          readiness_timed_out = false;
        }))
    else go (record { body_tracker = body; target_tracker = target_tracker; outcome = outcome })

abbrev pub unobserved_readiness : Option PageReadiness → Option PageReadiness
unobserved_readiness none = none
unobserved_readiness (some r) = some (record r {
  observation_complete = false;
  target_content = ReadinessState.unknown;
  target_dom_stable = false;
  target_text_stable = false;
})

-- A failed sample breaks the row of samples that agree.
unfoldable pub start_over : ℕ → Waiting → Waiting
start_over now w = record {
  body_tracker = track_from now;
  target_tracker = track_from now;
  outcome = record (w.outcome) {
    dom_stable = some false;
    text_stable = some false;
    readiness = unobserved_readiness w.outcome.readiness;
  };
}

unfoldable pub attempt_round : Plan → Round → Waiting → Attempt → Next
unfolding after_sample start_over time_out
attempt_round p r w (sampled o quiet) =
    after_sample p r.now
      (assess p.combine_hash (selector_of p.wait) (is_strict p.wait) p.idle_for o) quiet w
attempt_round p r w (refused e) =
    if is_code e.error_code invalid_argument then stop (err e) else go (start_over r.now w)
attempt_round p r w overran =
    if ltb (min (p.wait_deadline - r.now) 500) 500
    then stop (ok (time_out p r.requests w.outcome))
    else go (start_over r.now w)

unfoldable pub wait_round : Plan → Round → Waiting → Next
unfolding attempt_round
wait_round p r w =
    if leb p.wait_deadline r.now
    then stop (ok (time_out p r.requests w.outcome))
    else attempt_round p r w r.attempt

-- The loop over the rounds; `none` while it waits for another one.
unfoldable pub wait_rounds : Plan → List Round → Waiting → Option (Result WaitOutcome)
unfolding wait_round
wait_rounds p [] w = none
wait_rounds p (r ∷ rest) w = elim (wait_round p r w) [
  | stop result ↦ some result
  | go w' ↦ wait_rounds p rest w'
]

-- A round stops the wait or goes on with it.
pub Next-cases :
    (n : Next) → ((result : Result WaitOutcome) × (n ≡ stop result)) ⊎ ((w : Waiting) × (n ≡ go w))
Next-cases (stop result) = inl (result, refl)
Next-cases (go w) = inr (w, refl)
