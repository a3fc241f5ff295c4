-- ===== src/Readiness/Turns.antt =====
-- `wait_for_readiness` of sdk/fetch/pipeline/browser/wait.rs with the clock of its loop: each turn takes
-- the time of its attempt, and ends with the loop's own sleep.
use agent_first_http.Prelude.{ℕ, ◌+◌, Option, List, [], ◌∷◌}
use agent_first_http.Errors.{Result}
use agent_first_http.Network.Snapshots.{ReadinessNetwork}
use agent_first_http.Readiness.Loop.{
  WaitOutcome, Attempt, Round, Plan, Waiting, sleep_until_or_deadline, wait_rounds,
}

-- A turn of the loop: how long its attempt takes, and by how much its sleep is longer than asked for.
pub record Turn : Type 0 where
  pub attempt : Attempt
  pub requests : ReadinessNetwork
  pub took : ℕ
  pub overslept : ℕ

-- The clock after a turn that begins at `now`.
unfoldable pub after_turn : Plan → ℕ → Turn → ℕ
unfolding sleep_until_or_deadline
after_turn p now t =
    let awake = now + t.took in
    awake + sleep_until_or_deadline p.wait_deadline awake 100 + t.overslept

unfoldable pub rounds_from : Plan → ℕ → List Turn → List Round
unfolding after_turn
rounds_from p now [] = []
rounds_from p now (t ∷ rest) =
    record { now = now; attempt = t.attempt; requests = t.requests }
    ∷ rounds_from p (after_turn p now t) rest

-- The loop from a time on; `none` while it waits for another turn.
unfoldable pub wait_turns : Plan → ℕ → List Turn → Waiting → Option (Result WaitOutcome)
unfolding wait_rounds rounds_from
wait_turns p now turns w = wait_rounds p (rounds_from p now turns) w
