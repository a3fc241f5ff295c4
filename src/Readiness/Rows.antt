-- ===== src/Readiness/Rows.antt =====
-- The row of samples that agree, as the loop that waits for readiness keeps it.
use agent_first_http.Prelude.{
  ℕ, ◌<◌, Bool, true, false, not, ◌||◌, ◌≡◌, refl, sym, ap, ◌∙◌, subst, inl, inr, List, [], ◌∷◌,
  if◌then◌else◌, Bool-cases,
}
use agent_first_http.Errors.{Result}
use agent_first_http.Readiness.Stability.{
  PageMetrics, StabilityTracker, is_same_dom, is_same_text, observe, after,
}
use agent_first_http.Readiness.Held.{Settled}
use agent_first_http.Readiness.Frames.{Observation, Sample}
use agent_first_http.Readiness.Assess.{assess}
use agent_first_http.Readiness.Calm.{IsCalm}
use agent_first_http.Readiness.Loop.{
  WaitOutcome, Attempt, sampled, refused, overran, Round, Plan, is_strict, selector_of, Waiting,
  stop, go, track_target, after_sample, start_over, attempt_round,
}

abbrev pub sample_of : Plan → Observation → Sample
sample_of p o = assess p.combine_hash (selector_of p.wait) (is_strict p.wait) p.idle_for o

-- The samples of the target that stand in a row at the end: a round without an eligible sample breaks it.
abbrev pub row_after : Plan → ℕ → Attempt → List (PageMetrics × ℕ) → List (PageMetrics × ℕ)
row_after p now (sampled o quiet) row =
    if (sample_of p o).target_eligible then ((sample_of p o).target, now) ∷ row else []
row_after p now _ row = []

-- Of rounds, the newest first.
abbrev pub row_of : Plan → List Round → List (PageMetrics × ℕ)
row_of p [] = []
row_of p (r ∷ older) = row_after p r.now r.attempt (row_of p older)

-- Earlier rounds, the newest first, before later ones.
abbrev pub back_onto : List Round → List Round → List Round
back_onto [] rounds = rounds
back_onto (r ∷ older) rounds = back_onto older (r ∷ rounds)

-- The tracker of the target has seen the row, and the outcome is still that of a wait without success.
pub record Tracks (p : Plan) (w : Waiting) (row : List (PageMetrics × ℕ)) : Type 0 where
  pub start : ℕ
  pub tracked : w.target_tracker ≡ after p.stable_for start row
  pub unsatisfied : w.outcome.readiness_timed_out ≡ true

-- The evidence for success: a last round, before the time was up, whose sample is calm and ends a row of
-- samples that agree in text and DOM for long enough; in strict mode the whole network was quiet too.
pub record IsSatisfied (p : Plan) (rounds : List Round) : Type 0 where
  pub before : List Round
  pub last : Round
  pub later : List Round
  pub seen : Observation
  pub quiet : Bool
  pub placed : rounds ≡ back_onto before (last ∷ later)
  pub in_time : last.now < p.wait_deadline
  pub attempted : last.attempt ≡ sampled seen quiet
  pub calm : IsCalm (is_strict p.wait) p.idle_for seen
  pub network_quiet : (not (is_strict p.wait) || quiet) ≡ true
  pub text_settled :
      Settled is_same_text
        (sample_of p seen).target
        p.stable_for
        last.now
        (((sample_of p seen).target, last.now) ∷ row_of p before)
  pub dom_settled :
      Settled is_same_dom
        (sample_of p seen).target
        p.stable_for
        last.now
        (((sample_of p seen).target, last.now) ∷ row_of p before)

pub track_target-row :
    (p : Plan) (now start : ℕ) (o : Observation) (quiet : Bool) (t : StabilityTracker)
    (row : List (PageMetrics × ℕ))
    → t ≡ after p.stable_for start row
    → (start' : ℕ) × (track_target p now (sample_of p o) t
        ≡ after p.stable_for start' (row_after p now (sampled o quiet) row))
unfolding after
track_target-row p now start o quiet t row e = elim (Bool-cases (sample_of p o).target_eligible) [
  | inl good ↦ (start, rw good (ap (observe (sample_of p o).target p.stable_for now) e))
  | inr bad ↦ (now, rw bad refl)
]

pub if_go :
    (b : Bool) (result : Result WaitOutcome) (w w' : Waiting)
    → (if b then stop result else go w) ≡ go w'
    → w ≡ w'
if_go true result w w' e = cc
if_go false result w w' e = cc

pub if_stop :
    (b : Bool) (result result' : Result WaitOutcome) (w : Waiting)
    → (if b then stop result else go w) ≡ stop result'
    → (b ≡ true) × (result ≡ result')
if_stop true result result' w e = (refl, cc)
if_stop false result result' w e = cc

pub after_sample-Tracks :
    (p : Plan) (now : ℕ) (o : Observation) (quiet : Bool) (w w' : Waiting)
    (row : List (PageMetrics × ℕ))
    → Tracks p w row
    → after_sample p now (sample_of p o) quiet w ≡ go w'
    → Tracks p w' (row_after p now (sampled o quiet) row)
unfolding after_sample
after_sample-Tracks p now o quiet w w' row h e =
    let same = if_go _ _ _ w' e in
    let (start, tracked) = track_target-row p now h.start o quiet w.target_tracker row h.tracked in
    record {
      start = start;
      tracked = ap (λ (x : Waiting). x.target_tracker) (sym same) ∙ tracked;
      unsatisfied = ap (λ (x : Waiting). x.outcome.readiness_timed_out) (sym same) ∙ h.unsatisfied;
    }

pub start_over-Tracks :
    (p : Plan) (now : ℕ) (w : Waiting) (row : List (PageMetrics × ℕ))
    → Tracks p w row
    → Tracks p (start_over now w) []
unfolding start_over after
start_over-Tracks p now w row h = record {
  start = now;
  tracked = refl;
  unsatisfied = h.unsatisfied;
}

-- A round that goes on keeps track.
pub attempt_round-Tracks :
    (p : Plan) (r : Round) (w w' : Waiting) (a : Attempt) (row : List (PageMetrics × ℕ))
    → Tracks p w row
    → attempt_round p r w a ≡ go w'
    → Tracks p w' (row_after p r.now a row)
unfolding attempt_round
attempt_round-Tracks p r w w' (sampled o quiet) row h e =
    after_sample-Tracks p r.now o quiet w w' row h e
attempt_round-Tracks p r w w' (refused error) row h e =
    subst (λ (x : Waiting). Tracks p x []) (if_go _ _ _ w' e) (start_over-Tracks p r.now w row h)
attempt_round-Tracks p r w w' overran row h e =
    subst (λ (x : Waiting). Tracks p x []) (if_go _ _ _ w' e) (start_over-Tracks p r.now w row h)
