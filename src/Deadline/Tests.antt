-- ===== src/Deadline/Tests.antt =====
-- Stages at concrete times.
use agent_first_http.Prelude.{ℕ, ◌+◌, ◌≡◌, refl, inr, codes, false, [], ◌∷◌, text_eq, rposition}
use agent_first_http.Errors.{io_error, navigation_timeout, new, ok, err, is_code}
use agent_first_http.Deadline.Recorder.{
  ok_, error, TraceState, FetchDeadline, Ended, finished, last_is, begin_stage, finish_stage,
  recorded, run_result, status_of, status_for_error,
}
use agent_first_http.Deadline.Stages.{IsRecorded, Finishes, in_order, begun, run_result-IsRecorded}

abbrev deadline : FetchDeadline
deadline = record { started = 0; timeout = 100 }

abbrev fresh : TraceState
fresh = record { current_stage = codes "start"; stages = []; active = [] }

abbrev body_read : ℕ → ℕ → TraceState → Ended ℕ
body_read remaining now s = finished (ok remaining) (now + 5) s

-- A stage around another one: the inner record stands first.
abbrev fetched : ℕ → ℕ → TraceState → Ended ℕ
fetched remaining now s =
    let (r, s') = run_result deadline (codes "body") navigation_timeout body_read now s in
    finished (err (new io_error)) (now + 9) s'

nested_stages :
    (run_result deadline (codes "http") navigation_timeout fetched 10 fresh).1.stages
    ≡ record { name = codes "body"; status = ok_; duration_ms = 5 }
      ∷ record { name = codes "http"; status = error; duration_ms = 9 }
      ∷ []
unfolding run_result begin_stage last_is finish_stage recorded status_for_error is_code new text_eq
    rposition
nested_stages = refl

fetched-Finishes :
    Finishes (begun (codes "http") 10 fresh) (fetched 90 10 (begun (codes "http") 10 fresh))
unfolding run_result begin_stage last_is finish_stage recorded text_eq rposition
fetched-Finishes =
    in_order refl (record { name = codes "body"; status = ok_; duration_ms = 5 } ∷ []) refl

nothing_active : last_is (codes "http") fresh.active ≡ false
unfolding last_is
nothing_active = refl

run_result-IsRecorded_example :
    let (r, s') = run_result deadline (codes "http") navigation_timeout fetched 10 fresh in
    IsRecorded (codes "http") (status_of r) fresh s'
run_result-IsRecorded_example =
    run_result-IsRecorded deadline (codes "http") navigation_timeout fetched 10 fresh nothing_active
      (inr fetched-Finishes)
