-- ===== src/CdpClient/Tests.antt =====
-- Two calls of a connection, whose answers come in the other order.
use agent_first_http.Prelude.{
  codes, true, ◌≡◌, ◌≢◌, refl, some, List, [], ◌∷◌, nat_eq, member, insert, erase, get, put, remove,
}
use agent_first_http.Errors.{ok, err, new, cdp_error, cdp_timeout}
use agent_first_http.CdpClient.Requests.{
  result, numbered, waiting, returned, no_calls, Event, begin, enqueue, reply, expire, forget,
  close, change_call, drain_replies, step, run,
}
use agent_first_http.CdpClient.Steps.{call_after}
use agent_first_http.CdpClient.Calls.{run-call_after, run-closed}

abbrev two_calls : List Event
two_calls = begin ∷ enqueue 1 true ∷ begin ∷ []

abbrev crossed : List Event
crossed = enqueue 2 true ∷ reply 2 (result (codes "b")) ∷ close ∷ reply 1 (result (codes "a")) ∷ []

first_fails :
    get 1 (run (run no_calls two_calls) crossed).calls ≡ some (returned (err (new cdp_error)))
unfolding run step no_calls get put remove member insert erase change_call drain_replies
first_fails = refl

second_returns :
    get 2 (run (run no_calls two_calls) crossed).calls ≡ some (returned (ok (codes "b")))
unfolding run step no_calls get put remove member insert erase change_call drain_replies
second_returns = refl

-- An answer that comes between the timer and the removal of the slot is dropped.
late_answer :
    get 1
      (run no_calls
        (begin ∷ enqueue 1 true ∷ expire 1 ∷ reply 1 (result (codes "a")) ∷ forget 1 ∷ [])).calls
    ≡ some (returned (err (new cdp_timeout)))
unfolding run step no_calls get put remove member insert erase change_call drain_replies
late_answer = refl

run-call_after_example :
    get 2 (run (run no_calls two_calls) crossed).calls
    ≡ some (call_after 2 (run no_calls two_calls).closed crossed numbered)
unfolding run step no_calls get put remove member insert erase change_call drain_replies
run-call_after_example = run-call_after two_calls crossed 2 numbered refl

run-closed_example : get 1 (run no_calls (begin ∷ enqueue 1 true ∷ close ∷ [])).calls ≢ some waiting
unfolding run step no_calls
run-closed_example = run-closed (begin ∷ enqueue 1 true ∷ close ∷ []) 1 refl
