-- ===== src/Readiness/Rounds.antt =====
-- A wait for a whole page at concrete times.
use agent_first_http.Prelude.{
  ℕ, ◌+◌, Text, codes, true, ◌≡◌, ◌↔◌, refl, Option, some, List, [], ◌∷◌, text_eq, text_keys, get,
  any, arith, none,
}
use agent_first_http.Errors.{Result, ok}
use agent_first_http.Network.Entry.{default_entry, finished}
use agent_first_http.Network.Snapshots.{ObservedRequest, ReadinessNetwork, is_redirect_hop}
use agent_first_http.Readiness.Stability.{
  PageMetrics, is_same_dom, is_same_text, observe, track_from,
}
use agent_first_http.Readiness.Frames.{target, ScopedFrame, Observation}
use agent_first_http.Readiness.Assess.{assess}
use agent_first_http.Readiness.Calm.{IsCalm, assess-IsCalm}
use agent_first_http.Readiness.Wait.{auto, selector, parse}
use agent_first_http.Readiness.Loop.{
  WaitOutcome, sampled, overran, Round, Plan, start_waiting, wait_rounds,
}
use agent_first_http.Readiness.Rows.{IsSatisfied}
use agent_first_http.Readiness.Satisfied.{wait_rounds-IsSatisfied}
use agent_first_http.Readiness.Progress.{wait_turns-ends}
use agent_first_http.Readiness.Turns.{Turn, after_turn, wait_turns}
use agent_first_http.Readiness.Spelling.{Written, parse_iff}

abbrev shown : PageMetrics
shown = record { text_len = 9; text_hash = 1; node_count = 4; dom_hash = 7 }

abbrev page_frame : ScopedFrame
page_frame = record {
  frame = record { id = codes "f"; url = codes "http://a"; loader_id = codes "l" };
  scope = target;
  metrics = some (record { page = shown; eligible = true; document_ready = true });
}

abbrev page_request : ObservedRequest
page_request = record {
  entry = record default_entry {
    request_id = codes "1";
    state = finished;
    frame_id = some (codes "f");
    loader_id = some (codes "l");
    resource_type = codes "Document";
  };
  waited = 900;
  idle_for = 700;
}

abbrev page_network : ReadinessNetwork
page_network = record { requests = page_request ∷ []; complete = true }

abbrev page_seen : Observation
page_seen = record {
  root = page_frame;
  others = [];
  network = page_network;
  body = shown;
  unobserved = [];
}

abbrev hash_sum : List (Text × ℕ) → ℕ
hash_sum [] = 0
hash_sum ((_, n) ∷ rest) = n + hash_sum rest

assess-IsCalm_example : IsCalm true 500 page_seen
unfolding assess default_entry is_redirect_hop get text_eq any
assess-IsCalm_example = assess-IsCalm hash_sum (codes "body") true 500 page_seen refl refl

abbrev whole_page : Plan
whole_page = record {
  wait = auto;
  idle_for = 500;
  stable_for = 300;
  wait_deadline = 5000;
  combine_hash = hash_sum;
}

abbrev seen_at : ℕ → Round
seen_at now = record { now = now; attempt = sampled page_seen true; requests = page_network }

abbrev three_rounds : List Round
three_rounds = seen_at 1000 ∷ seen_at 1200 ∷ seen_at 1400 ∷ []

abbrev nothing_yet : WaitOutcome
nothing_yet = (start_waiting auto 900 900).outcome

-- The outcome of the three rounds, as the loop computes it.
outcome_of : Option (Result WaitOutcome) → WaitOutcome
unfolding start_waiting
outcome_of (some (ok o)) = o
outcome_of _ = nothing_yet

page_outcome : WaitOutcome
unfolding outcome_of start_waiting wait_rounds assess default_entry is_redirect_hop get text_eq any
    observe track_from is_same_dom is_same_text
page_outcome = outcome_of (wait_rounds whole_page three_rounds (start_waiting auto 900 900))

wait_rounds-IsSatisfied_example : IsSatisfied whole_page three_rounds
unfolding page_outcome
wait_rounds-IsSatisfied_example =
    wait_rounds-IsSatisfied whole_page three_rounds 900 900 page_outcome refl refl

-- An attempt that has no answer after half a second.
abbrev lost : Turn
lost = record { attempt = overran; requests = page_network; took = 500; overslept = 3 }

-- The end of the time is not reached in one turn, and is in the next.
lost_turns :
    (wait_turns whole_page 4000 (lost ∷ []) (start_waiting auto 900 900) ≡ none)
    × (after_turn whole_page 4000 lost ≡ 4603)
unfolding wait_turns after_turn start_waiting observe track_from
lost_turns = (refl, refl)

wait_turns-ends_example :
    (result : Result WaitOutcome) × (wait_turns whole_page 4850
        (lost ∷ lost ∷ lost ∷ [])
        (start_waiting auto 900 900)
      ≡ some result)
wait_turns-ends_example =
    wait_turns-ends whole_page 4850 lost (lost ∷ lost ∷ []) (start_waiting auto 900 900)
      (omega arith)

parse_iff_example :
    (parse (codes "selector:#root") ≡ ok (selector (codes "#root")))
    ↔ Written (selector (codes "#root")) (codes "selector:#root")
parse_iff_example = parse_iff (codes "selector:#root") (selector (codes "#root"))
