-- ===== src/Deadline/Stages.antt =====
-- Each stage of a fetch is recorded once, with the status of its result.
use agent_first_http.Prelude.{
  ℕ, suc, ◌-◌, ◌≡◌, refl, sym, ap, subst, ◌∙◌, ◌⊎◌, inl, inr, Text, Bool, true, false, Option, some,
  List, [], ◌∷◌, ◌++◌, leb, text_eq, text_eq_refl, rposition, get_elem?, remove_at, length,
  length-append, if_intro, arith,
}
use agent_first_http.Errors.{ErrorCode, new, navigation_timeout, Result, is_code}
use agent_first_http.Deadline.Recorder.{
  TraceStageStatus, timeout, TraceStage, ActiveStage, TraceState, FetchDeadline, StageToken,
  last_is, begin_stage, recorded, remove_stage, finish_at, finish_stage, mark_current_stage,
  status_for_error, Ended, finished, dropped, status_of, after_future, run_begun, run_result,
}

module _ {A : Type 0} where
  rposition-last :
      (p : A → Bool) (xs : List A) (a : A)
      → p a ≡ true
      → rposition p (xs ++ a ∷ []) ≡ some (length xs)
  unfolding rposition
  rposition-last p [] a h = rw h refl
  rposition-last p (x ∷ xs) a h = rw (rposition-last p xs a h, rposition) refl

  get_elem?-last : (xs : List A) (a : A) → get_elem? (xs ++ a ∷ []) (length xs) ≡ some a
  get_elem?-last [] a = refl
  get_elem?-last (x ∷ xs) a = get_elem?-last xs a

  remove_at-last : (xs : List A) (a : A) → remove_at (xs ++ a ∷ []) (length xs) ≡ xs
  remove_at-last [] a = refl
  remove_at-last (x ∷ xs) a = ap (λ (l : List A). x ∷ l) (remove_at-last xs a)

-- The recorder after a stage: the stack is as before, and the records have one more, of the stage and
-- with its status, behind those of the stages that were inside it.
pub record IsRecorded (stage : Text) (status : TraceStageStatus) (before after : TraceState)
    : Type 0 where
  pub stack : after.active ≡ before.active
  pub inside : List TraceStage
  pub duration : ℕ
  pub records :
      after.stages
      ≡ (before.stages ++ inside)
        ++ record { name = stage; status = status; duration_ms = duration } ∷ []

-- A future that finishes, leaves the stack as it was, and keeps the records that were there.
pub data Finishes {A : Type 0} (s : TraceState) : Ended A → Type 0 where
  in_order :
      {r : Result A} {now : ℕ} {s' : TraceState}
      → s'.active ≡ s.active
      → (inside : List TraceStage) → s'.stages ≡ s.stages ++ inside
      → Finishes s (finished r now s')

module _ (stage : Text) (start : ℕ) (s : TraceState) where
  abbrev pub stage_active : ActiveStage
  stage_active = record { name = stage; started = start }

  -- The newest stage is removed where it stands.
  remove_newest :
      (status : TraceStageStatus) (now : ℕ) (s' : TraceState) (inside : List TraceStage)
      → s'.active ≡ s.active ++ stage_active ∷ []
      → s'.stages ≡ s.stages ++ inside
      → IsRecorded stage status s (remove_stage status now s' (length s.active) (some stage_active))
  unfolding recorded
  remove_newest status now s' inside e f = record {
    stack =
        ap (λ (l : List ActiveStage). remove_at l (length s.active)) e
        ∙ remove_at-last s.active stage_active;
    inside = inside;
    duration = now - start;
    records =
        ap
          (λ (l : List TraceStage).
            l ++ record { name = stage; status = status; duration_ms = now - start } ∷ [])
          f;
  }

  removed :
      (status : TraceStageStatus) (now : ℕ) (s' : TraceState) (inside : List TraceStage)
      → s'.active ≡ s.active ++ stage_active ∷ []
      → s'.stages ≡ s.stages ++ inside
      → IsRecorded stage status s
          (remove_stage status now s' (length s.active) (get_elem? s'.active (length s.active)))
  removed status now s' inside e f =
      let found =
        ap (λ (l : List ActiveStage). get_elem? l (length s.active)) e
        ∙ get_elem?-last s.active stage_active in
      subst
        (λ (o : Option ActiveStage).
          IsRecorded stage status s (remove_stage status now s' (length s.active) o))
        (sym found) (remove_newest status now s' inside e f)

  finish_stage-IsRecorded :
      (status : TraceStageStatus) (now : ℕ) (s' : TraceState) (inside : List TraceStage)
      → s'.active ≡ s.active ++ stage_active ∷ []
      → s'.stages ≡ s.stages ++ inside
      → IsRecorded stage status s
          (finish_stage (record { name = stage; nested = false }) status now s')
  unfolding finish_stage
  finish_stage-IsRecorded status now s' inside e f =
      let found =
        ap (rposition (λ (a : ActiveStage). text_eq a.name stage)) e
        ∙ rposition-last (λ (a : ActiveStage). text_eq a.name stage) s.active stage_active
            (text_eq_refl stage) in
      subst (λ (o : Option ℕ). IsRecorded stage status s (finish_at status now s' o)) (sym found)
        (removed status now s' inside e f)

  -- The newest stage is the one that is popped.
  mark_current_stage-IsRecorded :
      (status : TraceStageStatus) (now : ℕ) (s' : TraceState) (inside : List TraceStage)
      → s'.active ≡ s.active ++ stage_active ∷ []
      → s'.stages ≡ s.stages ++ inside
      → IsRecorded stage status s (mark_current_stage status now s')
  unfolding mark_current_stage
  mark_current_stage-IsRecorded status now s' inside e f =
      let count : length s'.active ≡ suc (length s.active) =
        ap (λ (l : List ActiveStage). length l) e
        ∙ omega (arith, length-append s.active (stage_active ∷ [])) in
      rw (count, mark_current_stage) (removed status now s' inside e f)

  -- What `begin_stage` leaves for a stage that is not the newest one already.
  abbrev pub begun : TraceState
  begun = record s { current_stage = stage; active = s.active ++ stage_active ∷ [] }

  after_future-IsRecorded :
      {A : Type 0} (code : ErrorCode) (e : Ended A)
      → Finishes begun e
      → let (r, s') = after_future (record { name = stage; nested = false }) code e in
        IsRecorded stage (status_of r) s s'
  after_future-IsRecorded code (finished r now s') (in_order stack inside records) =
      finish_stage-IsRecorded (status_of r) now s' inside stack records
  after_future-IsRecorded code (dropped now s') f = elim f [ ]

append_nothing : (l : List TraceStage) → l ≡ l ++ []
append_nothing [] = refl
append_nothing (x ∷ l) = ap (λ (m : List TraceStage). x ∷ m) (append_nothing l)

begun_lem :
    (stage : Text) (now : ℕ) (s : TraceState)
    → last_is stage s.active ≡ false
    → begin_stage stage now s ≡ (begun stage now s, record { name = stage; nested = false })
unfolding begin_stage
begun_lem stage now s h = rw h refl

navigation_status : status_for_error (new navigation_timeout).error_code ≡ timeout
unfolding status_for_error new is_code
navigation_status = refl

-- A stage that is not the newest active one already, and whose time was up before it began, or whose
-- work finishes with the stack as it found it: the stack is as before, and there is exactly one more
-- record than those of the stages inside it, with its name and the status of its result, timeouts
-- apart from other errors.
pub run_result-IsRecorded :
    {A : Type 0} (d : FetchDeadline) (stage : Text) (code : ErrorCode)
    (future : ℕ → ℕ → TraceState → Ended A) (now : ℕ) (s : TraceState)
    → last_is stage s.active ≡ false
    → (leb d.timeout (now - d.started) ≡ true)
      ⊎ Finishes
          (begun stage now s)
          (future (d.timeout - (now - d.started)) now (begun stage now s))
    → let (r, s') = run_result d stage code future now s in IsRecorded stage (status_of r) s s'
unfolding run_result
run_result-IsRecorded {A} d stage code future now s new_stage ends =
    subst
      (λ (p : TraceState × StageToken).
        IsRecorded stage (status_of (run_begun d code future now p).0) s
          (run_begun d code future now p).1)
      (sym (begun_lem stage now s new_stage))
      (if_intro (λ (q : Result A × TraceState). IsRecorded stage (status_of q.0) s q.1)
        (leb d.timeout (now - d.started))
        (λ _.
          subst
            (λ (t : TraceStageStatus).
              IsRecorded stage t s (mark_current_stage timeout now (begun stage now s)))
            (sym navigation_status)
            (mark_current_stage-IsRecorded stage now s timeout now (begun stage now s) [] refl
              (append_nothing s.stages)))
        (λ in_time.
          after_future-IsRecorded stage now s code
            (future (d.timeout - (now - d.started)) now (begun stage now s))
            (elim ends [
              | inl over ↦ absurd (ground (arith, over, in_time))
              | inr finishes ↦ finishes
            ])))
