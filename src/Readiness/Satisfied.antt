-- ===== src/Readiness/Satisfied.antt =====
-- What stands behind a wait for readiness that ends satisfied.
use agent_first_http.Prelude.{
  ℕ, ◌<◌, Bool, true, false, not, ◌&&◌, ◌||◌, ◌≡◌, refl, sym, ap, ◌∙◌, ◌⊎◌, inl, inr, Option, some,
  List, [], ◌∷◌, leb, Bool-cases, arith,
}
use agent_first_http.Errors.{Result, ok, err}
use agent_first_http.Readiness.Stability.{
  PageMetrics, StabilityTracker, is_same_dom, is_same_text, after,
}
use agent_first_http.Readiness.Held.{Settled, after-Settled}
use agent_first_http.Readiness.Frames.{Observation}
use agent_first_http.Readiness.Calm.{IsCalm, assess-IsCalm}
use agent_first_http.Readiness.Loop.{
  WaitOutcome, Attempt, sampled, refused, overran, Round, Plan, is_strict, Waiting, start_waiting,
  Next, stop, go, track_target, is_target_ready, after_sample, attempt_round, wait_round,
  wait_rounds, time_out, Next-cases,
}
use agent_first_http.Readiness.Rows.{
  sample_of, row_of, back_onto, Tracks, IsSatisfied, track_target-row, if_stop,
  attempt_round-Tracks,
}

-- A round that ends with success has a sample that is good enough, in a row that has settled.
record IsEvident (p : Plan) (now : ℕ) (a : Attempt) (row : List (PageMetrics × ℕ)) : Type 0 where
  seen : Observation
  quiet : Bool
  attempted : a ≡ sampled seen quiet
  calm : IsCalm (is_strict p.wait) p.idle_for seen
  network_quiet : (not (is_strict p.wait) || quiet) ≡ true
  text_settled :
      Settled is_same_text
        (sample_of p seen).target
        p.stable_for
        now
        (((sample_of p seen).target, now) ∷ row)
  dom_settled :
      Settled is_same_dom
        (sample_of p seen).target
        p.stable_for
        now
        (((sample_of p seen).target, now) ∷ row)

target_parts :
    (e q d t n : Bool)
    → ((e && (q && (d && t))) && n) ≡ true
    → (e ≡ true) × (q ≡ true) × (d ≡ true) × (t ≡ true) × (n ≡ true)
target_parts e q d t n h = (ground arith, ground arith, ground arith, ground arith, ground arith)

not_false {ℓ} : {P : Type ℓ} {b : Bool} → b ≡ true → (b ≡ false) ⊎ P → P
not_false yes_ (inl no_) = cc
not_false yes_ (inr p) = p

after_sample-IsEvident :
    (p : Plan) (now : ℕ) (o : Observation) (quiet : Bool) (w : Waiting)
    (result : Result WaitOutcome) (row : List (PageMetrics × ℕ))
    → Tracks p w row
    → after_sample p now (sample_of p o) quiet w ≡ stop result
    → IsEvident p now (sampled o quiet) row
unfolding after_sample is_target_ready
after_sample-IsEvident p now o quiet w result row h e =
    let (done, _) = if_stop _ _ result _ e in
    let (eligible, still, dom, text, network) = target_parts _ _ _ _ _ done in
    let (start, row') = track_target-row p now h.start o quiet w.target_tracker row h.tracked in
    let tracker : track_target p now (sample_of p o) w.target_tracker
        ≡ after p.stable_for start (((sample_of p o).target, now) ∷ row) =
      rw eligible (rw eligible at row') in
    let settled = after-Settled p.stable_for start (sample_of p o).target now row in
    record {
      seen = o;
      quiet = quiet;
      attempted = refl;
      calm = assess-IsCalm p.combine_hash _ _ p.idle_for o eligible still;
      network_quiet = network;
      text_settled =
          not_false (ap (λ (x : StabilityTracker). x.text_stable) (sym tracker) ∙ text) settled.0;
      dom_settled =
          not_false (ap (λ (x : StabilityTracker). x.dom_stable) (sym tracker) ∙ dom) settled.1;
    }

ok_inj : {a b : WaitOutcome} → ◌≡◌ {A = Result WaitOutcome} (ok a) (ok b) → a ≡ b
ok_inj e = cc

attempt_round-IsEvident :
    (p : Plan) (r : Round) (w : Waiting) (a : Attempt) (row : List (PageMetrics × ℕ))
    (o : WaitOutcome)
    → Tracks p w row
    → attempt_round p r w a ≡ stop (ok o)
    → o.readiness_timed_out ≡ false
    → IsEvident p r.now a row
unfolding attempt_round time_out
attempt_round-IsEvident p r w (sampled seen quiet) row o h e won =
    after_sample-IsEvident p r.now seen quiet w (ok o) row h e
attempt_round-IsEvident p r w (refused error) row o h e won =
    let (_, same) = if_stop _ (err error) (ok o) _ e in cc
attempt_round-IsEvident p r w overran row o h e won =
    let (_, same) = if_stop _ _ (ok o) _ e in
    let inside = ok_inj same in
    let lost : true ≡ false =
      sym h.unsatisfied ∙ ap (λ (x : WaitOutcome). x.readiness_timed_out) inside ∙ won in
    cc

-- A round that starts after the time ends the loop without success.
timed_round :
    (p : Plan) (r : Round) (w : Waiting) (n : Next)
    → wait_round p r w ≡ n
    → ((r.now < p.wait_deadline) × (attempt_round p r w r.attempt ≡ n))
      ⊎ (stop (ok (time_out p r.requests w.outcome)) ≡ n)
unfolding wait_round
timed_round p r w n e = elim (Bool-cases (leb p.wait_deadline r.now)) [
  | inl over ↦ inr (rw (over, wait_round) at e)
  | inr early ↦ inl (ground arith, rw (early, wait_round) at e)
]

stop_inj : {a b : WaitOutcome} → stop (ok a) ≡ stop (ok b) → a ≡ b
stop_inj e = cc

some_inj :
    {a b : Result WaitOutcome} → ◌≡◌ {A = Option (Result WaitOutcome)} (some a) (some b) → a ≡ b
some_inj e = cc

-- An outcome by the end of the time is marked as such.
timed_out_lost :
    (p : Plan) (r : Round) (w : Waiting) (row : List (PageMetrics × ℕ)) (o : WaitOutcome)
    → Tracks p w row
    → time_out p r.requests w.outcome ≡ o
    → o.readiness_timed_out ≡ false
    → ⊥
unfolding time_out
timed_out_lost p r w row o h same won =
    let lost : true ≡ false =
      sym h.unsatisfied ∙ ap (λ (x : WaitOutcome). x.readiness_timed_out) same ∙ won in
    cc

module _ (p : Plan) (r : Round) (before rest : List Round) (w : Waiting)
    (h : Tracks p w (row_of p before)) where
  placed_evidence :
      (o : WaitOutcome)
      → wait_round p r w ≡ stop (ok o)
      → o.readiness_timed_out ≡ false
      → IsSatisfied p (back_onto before (r ∷ rest))
  placed_evidence o e won = elim (timed_round p r w (stop (ok o)) e) [
    | inr late ↦ absurd (timed_out_lost p r w (row_of p before) o h (stop_inj late) won)
    | inl (early, attempted) ↦
        let v = attempt_round-IsEvident p r w r.attempt (row_of p before) o h attempted won in
        record {
          before = before;
          last = r;
          later = rest;
          seen = v.seen;
          quiet = v.quiet;
          placed = refl;
          in_time = early;
          attempted = v.attempted;
          calm = v.calm;
          network_quiet = v.network_quiet;
          text_settled = v.text_settled;
          dom_settled = v.dom_settled;
        }
  ]

  kept_track : (w' : Waiting) → wait_round p r w ≡ go w' → Tracks p w' (row_of p (r ∷ before))
  kept_track w' e = elim (timed_round p r w (go w') e) [
    | inr late ↦ cc
    | inl (early, attempted) ↦ attempt_round-Tracks p r w w' r.attempt (row_of p before) h attempted
  ]

wait_rounds-back :
    (p : Plan) (rounds before : List Round) (w : Waiting) (o : WaitOutcome)
    → Tracks p w (row_of p before)
    → wait_rounds p rounds w ≡ some (ok o)
    → o.readiness_timed_out ≡ false
    → IsSatisfied p (back_onto before rounds)
unfolding wait_rounds
wait_rounds-back p [] before w o h e won = cc
wait_rounds-back p (r ∷ rest) before w o h e won = elim (Next-cases (wait_round p r w)) [
  | inl (result, stopped) ↦
      let same = some_inj (rw (stopped, wait_rounds) at e) in
      placed_evidence p r before rest w h o (stopped ∙ ap stop same) won
  | inr (w', went) ↦
      wait_rounds-back p rest (r ∷ before) w' o (kept_track p r before rest w h w' went)
        (rw (went, wait_rounds) at e) won
]

-- A wait that returns an outcome which is not marked as timed out has the evidence for it among its
-- rounds: a last round, before the time was up, whose sample was calm (the frames and requests that
-- count had ended), whose whole network was quiet where the whole page is waited for, and which ends a
-- row of eligible samples that agree in text and in DOM back to one that is older by `stable_for`.
pub wait_rounds-IsSatisfied :
    (p : Plan) (rounds : List Round) (body_start target_start : ℕ) (o : WaitOutcome)
    → wait_rounds p rounds (start_waiting p.wait body_start target_start) ≡ some (ok o)
    → o.readiness_timed_out ≡ false
    → IsSatisfied p rounds
unfolding start_waiting after
wait_rounds-IsSatisfied p rounds body_start target_start o e won =
    wait_rounds-back p rounds [] _ o
      (record { start = target_start; tracked = refl; unsatisfied = refl }) e won
