-- ===== src/Readiness/Progress.antt =====
-- The loop that waits for readiness comes to an end.
use agent_first_http.Prelude.{
  ℕ, suc, refl, ap, ◌+◌, ◌*◌, ◌≤◌, ◌<◌, ◌≡◌, inl, inr, some, List, [], ◌∷◌, length, leb, Bool-cases,
  arith,
}
use agent_first_http.Errors.{Result}
use agent_first_http.Readiness.Turns.{Turn, after_turn, rounds_from, wait_turns}
use agent_first_http.Readiness.Loop.{
  WaitOutcome, Round, Plan, Waiting, go, sleep_until_or_deadline, wait_round, wait_rounds,
  Next-cases,
}

-- Each round starts after the sleep that follows the one before: a sleep takes at least as long as was
-- asked for, and the clock does not go back.
abbrev pub Paced : Plan → ℕ → List Round → Type 0
Paced p now [] = Unit
Paced p now (r ∷ rest) =
    (now + sleep_until_or_deadline p.wait_deadline now 100 ≤ r.now) × Paced p r.now rest

late_round :
    (p : Plan) (r : Round) (w w' : Waiting) → wait_round p r w ≡ go w' → r.now < p.wait_deadline
unfolding wait_round
late_round p r w w' e = elim (Bool-cases (leb p.wait_deadline r.now)) [
  | inl over ↦ let bad = rw (over, wait_round) at e in cc
  | inr early ↦ ground arith
]

full_sleep :
    (deadline now later : ℕ)
    → now < deadline
    → later < deadline
    → now + sleep_until_or_deadline deadline now 100 ≤ later
    → now + 100 ≤ later
unfolding sleep_until_or_deadline
full_sleep deadline now later a b h = omega arith

-- Rounds that are paced, and enough of them to reach the end of the time at 100 ms each, bring the loop to
-- a result.
pub wait_rounds-ends :
    (p : Plan) (first : Round) (rest : List Round) (w : Waiting)
    → Paced p first.now rest
    → p.wait_deadline ≤ first.now + 100 * length rest
    → (result : Result WaitOutcome) × (wait_rounds p (first ∷ rest) w ≡ some result)
unfolding wait_rounds
wait_rounds-ends p first [] w paced enough = elim (Next-cases (wait_round p first w)) [
  | inl (result, stopped) ↦ (result, rw (stopped, wait_rounds))
  | inr (w', went) ↦ absurd (omega (arith, late_round p first w w' went))
]
wait_rounds-ends p first (r ∷ rest) w (slept, paced) enough =
    elim (Next-cases (wait_round p first w)) [
      | inl (result, stopped) ↦ (result, rw (stopped, wait_rounds))
      | inr (w', went) ↦ elim (Next-cases (wait_round p r w')) [
        | inl (result, stopped) ↦ (result, rw (went, wait_rounds) (rw (stopped, wait_rounds)))
        | inr (w'', went') ↦
            let step =
              full_sleep p.wait_deadline first.now r.now (late_round p first w w' went)
                (late_round p r w' w'' went') slept in
            let (result, e) = wait_rounds-ends p r rest w' paced (omega arith) in
            (result, rw (went, wait_rounds) e)
      ]
    ]

-- A turn lasts as long as its sleep, whatever its attempt takes.
after_turn-sleep :
    (p : Plan) (now : ℕ) (t : Turn)
    → now + sleep_until_or_deadline p.wait_deadline now 100 ≤ after_turn p now t
unfolding after_turn sleep_until_or_deadline
after_turn-sleep p now t = omega arith

rounds_from-Paced :
    (p : Plan) (now : ℕ) (t : Turn) (turns : List Turn)
    → Paced p now (rounds_from p (after_turn p now t) turns)
unfolding rounds_from
rounds_from-Paced p now t [] = tt
rounds_from-Paced p now t (u ∷ turns) =
    (after_turn-sleep p now t, rounds_from-Paced p (after_turn p now t) u turns)

length-rounds_from :
    (p : Plan) (now : ℕ) (turns : List Turn) → length (rounds_from p now turns) ≡ length turns
unfolding rounds_from
length-rounds_from p now [] = refl
length-rounds_from p now (t ∷ turns) = ap suc (length-rounds_from p (after_turn p now t) turns)

-- The loop that waits for readiness comes to a result, whatever its attempts give and however long they
-- take, if it goes through enough turns to reach the end of its time at 100 ms each, the sleep that it
-- makes itself at the end of a turn.
pub wait_turns-ends :
    (p : Plan) (now : ℕ) (first : Turn) (rest : List Turn) (w : Waiting)
    → p.wait_deadline ≤ now + 100 * length rest
    → (result : Result WaitOutcome) × (wait_turns p now (first ∷ rest) w ≡ some result)
unfolding wait_turns
wait_turns-ends p now first rest w enough =
    wait_rounds-ends p (record { now = now; attempt = first.attempt; requests = first.requests })
      (rounds_from p (after_turn p now first) rest) w (rounds_from-Paced p now first rest)
      (omega (arith, length-rounds_from p (after_turn p now first) rest))
