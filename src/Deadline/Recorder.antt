-- ===== src/Deadline/Recorder.antt =====
-- `FetchDeadline` of sdk/fetch/deadline.rs: the stack of the stages that are active, and the record of
-- those that are over. Time is in milliseconds.
use agent_first_http.Prelude.{
  ℕ, zero, suc, ◌-◌, Text, codes, Bool, false, Option, none, some, List, [], ◌∷◌, ◌++◌, leb,
  if◌then◌else◌, text_eq, rposition, get_elem?, remove_at, length, map,
}
use agent_first_http.Errors.{
  ErrorCode, new, navigation_timeout, cdp_timeout, artifact_capture_timeout, readiness_timeout,
  is_code, Result, ok, err,
}

pub data TraceStageStatus : Type 0 where
  ok_ error timeout started : TraceStageStatus

pub record TraceStage : Type 0 where
  pub name : Text
  pub status : TraceStageStatus
  pub duration_ms : ℕ

pub record ActiveStage : Type 0 where
  pub name : Text
  pub started : ℕ

-- The recorder's part of the trace, and the stack, the newest stage last.
pub record TraceState : Type 0 where
  pub current_stage : Text
  pub stages : List TraceStage
  pub active : List ActiveStage

pub record FetchDeadline : Type 0 where
  pub started : ℕ
  pub timeout : ℕ

pub record StageToken : Type 0 where
  pub name : Text
  pub nested : Bool

-- `active.last().is_some_and(|active| active.name == stage)`
unfoldable pub last_is : Text → List ActiveStage → Bool
last_is stage [] = false
last_is stage (a ∷ []) = text_eq a.name stage
last_is stage (a ∷ b ∷ rest) = last_is stage (b ∷ rest)

unfoldable pub begin_stage : Text → ℕ → TraceState → TraceState × StageToken
begin_stage stage now s =
    let nested = last_is stage s.active in
    (
      record s {
        current_stage = stage;
        active =
            if nested then s.active else s.active ++ record { name = stage; started = now } ∷ [];
      },
      record { name = stage; nested = nested },
    )

-- The record of a stage that is over.
unfoldable pub recorded : ActiveStage → TraceStageStatus → ℕ → TraceState → TraceState
recorded a status now s = record s {
  current_stage = a.name;
  stages =
      s.stages ++ record { name = a.name; status = status; duration_ms = now - a.started } ∷ [];
}

abbrev pub remove_stage : TraceStageStatus → ℕ → TraceState → ℕ → Option ActiveStage → TraceState
remove_stage status now s idx none = s
remove_stage status now s idx (some a) = record (recorded a status now s) {
  active = remove_at s.active idx;
}

abbrev pub finish_at : TraceStageStatus → ℕ → TraceState → Option ℕ → TraceState
finish_at status now s none = s
finish_at status now s (some idx) = remove_stage status now s idx (get_elem? s.active idx)

unfoldable pub finish_stage : StageToken → TraceStageStatus → ℕ → TraceState → TraceState
finish_stage token status now s =
    if token.nested
    then s
    else finish_at status now s
        (rposition (λ (a : ActiveStage). text_eq a.name token.name) s.active)

-- `pop`
unfoldable pub mark_current_stage : TraceStageStatus → ℕ → TraceState → TraceState
mark_current_stage status now s = elim (length s.active) [
  | zero ↦ s
  | suc idx ↦ remove_stage status now s idx (get_elem? s.active idx)
]

unfoldable pub status_for_error : ErrorCode → TraceStageStatus
status_for_error code =
    if is_code code navigation_timeout
    then timeout
    else if is_code code cdp_timeout
    then timeout
    else if is_code code artifact_capture_timeout
    then timeout
    else if is_code code readiness_timeout
    then timeout
    else error

unfoldable pub snapshot_inner : Bool → ℕ → TraceState → TraceState × List TraceStage
snapshot_inner complete now s =
    let current = if complete then codes "complete" else s.current_stage in
    (
      record s { current_stage = current },
      s.stages
          ++ map
              (λ (a : ActiveStage). record {
                name = a.name;
                status = started;
                duration_ms = now - a.started;
              })
              s.active,
    )

-- How a future ended: with its result, at a time, with the recorder as it left it; or dropped, when
-- its time was up.
pub data Ended (A : Type 0) : Type 0 where
  finished : Result A → ℕ → TraceState → Ended A
  dropped : ℕ → TraceState → Ended A

abbrev pub status_of : {A : Type 0} → Result A → TraceStageStatus
status_of (ok _) = ok_
status_of (err e) = status_for_error e.error_code

abbrev pub after_future : {A : Type 0} → StageToken → ErrorCode → Ended A → Result A × TraceState
after_future token timeout_code (finished r now s) = (r, finish_stage token (status_of r) now s)
after_future token timeout_code (dropped now s) =
    (err (new timeout_code), finish_stage token timeout now s)

-- A stage that has begun: `future` is given the time that remains, the time now and the recorder.
abbrev pub run_begun :
    {A : Type 0}
    → FetchDeadline
    → ErrorCode
    → (ℕ → ℕ → TraceState → Ended A)
    → ℕ
    → TraceState × StageToken
    → Result A × TraceState
run_begun d timeout_code future now (s', token) =
    if leb d.timeout (now - d.started)
    then (err (new navigation_timeout), mark_current_stage timeout now s')
    else after_future token timeout_code (future (d.timeout - (now - d.started)) now s')

unfoldable pub run_result :
    {A : Type 0}
    → FetchDeadline
    → Text
    → ErrorCode
    → (ℕ → ℕ → TraceState → Ended A)
    → ℕ
    → TraceState
    → Result A × TraceState
run_result d stage timeout_code future now s =
    run_begun d timeout_code future now (begin_stage stage now s)
