-- ===== src/CdpClient/Calls.antt =====
-- What a call of the connection comes to, whatever the others do.
use agent_first_http.Prelude.{
  ℕ, Bool, true, false, ◌≡◌, ◌≢◌, sym, ap, ◌∙◌, some, List, [], ◌∷◌, nat_eq, member, get,
}
use agent_first_http.CdpClient.Requests.{Call, waiting, Requests, no_calls, Event, step, run}
use agent_first_http.CdpClient.Steps.{own_step, call_after}
use agent_first_http.CdpClient.Soundness.{IsSound, no_calls-IsSound, step-closed, step-own}
use agent_first_http.CdpClient.Slots.{step-reached}
use agent_first_http.CdpClient.Ended.{step-numbers, step-ended}

step-IsSound : (s : Requests) (e : Event) → IsSound s → IsSound (step s e)
step-IsSound s e h = record {
  reached = λ id w. step-reached s e id h w;
  numbers = λ id c found. step-numbers s e id c h found;
  ended = step-ended s e h;
}

run_sound-call_after :
    (s : Requests) (events : List Event) (id : ℕ) (c : Call)
    → IsSound s
    → get id s.calls ≡ some c
    → get id (run s events).calls ≡ some (call_after id s.closed events c)
unfolding run
run_sound-call_after s [] id c sound found = found
run_sound-call_after s (e ∷ rest) id c sound found =
    run_sound-call_after (step s e) rest id (own_step id s.closed e c) (step-IsSound s e sound)
      (step-own s sound id c found e)
    ∙ ap (λ (b : Bool). some (call_after id b rest (own_step id s.closed e c))) (step-closed s e)

pub run-IsSound : (s : Requests) (events : List Event) → IsSound s → IsSound (run s events)
unfolding run
run-IsSound s [] h = h
run-IsSound s (e ∷ rest) h = run-IsSound (step s e) rest (step-IsSound s e h)

-- Whatever has happened on a connection, a call that was made comes to what its own steps make of it:
-- the answer to its own number, the end of the connection, or its timer, in the order in which they come.
-- No answer to another number, and no step of another call, changes it.
pub run-call_after :
    (past events : List Event) (id : ℕ) (c : Call)
    → get id (run no_calls past).calls ≡ some c
    → get id (run (run no_calls past) events).calls
      ≡ some (call_after id (run no_calls past).closed events c)
run-call_after past events id c found =
    run_sound-call_after (run no_calls past) events id c
      (run-IsSound no_calls past no_calls-IsSound) found

none_slotted : (b : Bool) → b ≡ true → b ≡ false → ⊥
none_slotted b h k = let bad : true ≡ false = sym h ∙ k in cc

-- Whatever the events of a connection were and in whatever order, once it is closed no call waits for a
-- reply.
pub run-closed :
    (events : List Event) (id : ℕ)
    → (run no_calls events).closed ≡ true
    → get id (run no_calls events).calls ≢ some waiting
unfolding member
run-closed events id over waits =
    let sound = run-IsSound no_calls events no_calls-IsSound in
    none_slotted (member id (run no_calls events).replies) (sound.reached id waits)
      (ap (λ (l : List ℕ). member id l) (sound.ended over))
