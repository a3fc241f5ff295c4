-- ===== src/Profiles/Removal.antt =====
-- `remove_profile_dir` of sdk/profile/mod.rs against hosts that acquire the lock meanwhile. A lock belongs
-- to the file that was opened, so the file under the lock's name is told from the one that a caller has
-- open. Each call of the file system is a step.
use agent_first_http.Prelude.{
  ℕ, ◌+◌, Bool, true, false, Option, none, some, List, [], ◌∷◌, if◌then◌else◌, nat_eq, get, put,
  remove,
}
use agent_first_http.Errors.{ErrorCode, profile_locked, io_error}

-- Where a caller is; the number is the file that it has open.
pub data RemovalPhase : Type 0 where
  -- A host: before it opens the lock file; before it locks it; before it writes its pid; with a guard.
  claiming : RemovalPhase
  claim_opened claim_locked claim_guarding : ℕ → RemovalPhase
  -- A removal: the same as far as the guard; then before the entries are removed, before the guard is
  -- dropped, before the lock file is removed, before the directory is removed, and at the end.
  removing : RemovalPhase
  remove_opened remove_locked remove_guarding emptied : ℕ → RemovalPhase
  unlocked_ unlinked removed : RemovalPhase
  failed : ErrorCode → RemovalPhase

pub record ProfileDir : Type 0 where
  -- The file under the lock's name.
  pub lockfile : Option ℕ
  pub next_file : ℕ
  -- Who has which file locked.
  pub locks : List (ℕ × ℕ)
  -- Whether the directory has other entries, such as the pid file.
  pub has_entries : Bool
  pub exists_ : Bool
  pub phases : List (ℕ × RemovalPhase)

abbrev pub used_profile : ProfileDir
used_profile = record {
  lockfile = none;
  next_file = 1;
  locks = [];
  has_entries = true;
  exists_ = true;
  phases = [];
}

pub data RemovalEvent : Type 0 where
  claim remove_profile next : ℕ → RemovalEvent

abbrev pub at_phase : ℕ → RemovalPhase → ProfileDir → ProfileDir
at_phase h p s = record s { phases = put h p s.phases }

-- A caller has a number of its own.
abbrev pub start_caller : ℕ → RemovalPhase → ProfileDir → ProfileDir
start_caller h p s = elim (get h s.phases) [ none ↦ at_phase h p s | some _ ↦ s ]

-- `open` with `create`: fails if the directory is gone.
abbrev pub open_lockfile : ℕ → (ℕ → RemovalPhase) → ProfileDir → ProfileDir
open_lockfile h then_ s =
    if s.exists_
    then elim s.lockfile [
      | some file ↦ at_phase h (then_ file) s
      | none ↦ record s {
        lockfile = some s.next_file;
        next_file = s.next_file + 1;
        phases = put h (then_ s.next_file) s.phases;
      }
    ]
    else at_phase h (failed io_error) s

abbrev pub lock_file : ℕ → ℕ → RemovalPhase → ProfileDir → ProfileDir
lock_file h file taken s = elim (get file s.locks) [
  | none ↦ record s { locks = put file h s.locks; phases = put h taken s.phases }
  | some _ ↦ at_phase h (failed profile_locked) s
]

unfoldable pub removal_step_from : ℕ → RemovalPhase → ProfileDir → ProfileDir
removal_step_from h claiming s = open_lockfile h (λ file. claim_opened file) s
removal_step_from h (claim_opened file) s = lock_file h file (claim_locked file) s
removal_step_from h (claim_locked file) s = record s {
  has_entries = true;
  phases = put h (claim_guarding file) s.phases;
}
removal_step_from h removing s = open_lockfile h (λ file. remove_opened file) s
removal_step_from h (remove_opened file) s = lock_file h file (remove_locked file) s
removal_step_from h (remove_locked file) s = record s {
  has_entries = true;
  phases = put h (remove_guarding file) s.phases;
}
removal_step_from h (remove_guarding file) s = record s {
  has_entries = false;
  phases = put h (emptied file) s.phases;
}
removal_step_from h (emptied file) s = record s {
  locks = remove file s.locks;
  phases = put h unlocked_ s.phases;
}
removal_step_from h unlocked_ s = record s { lockfile = none; phases = put h unlinked s.phases }
removal_step_from h unlinked s = elim s.lockfile [
  | some _ ↦ at_phase h (failed io_error) s
  | none ↦
      if s.has_entries
      then at_phase h (failed io_error) s
      else record s { exists_ = false; phases = put h removed s.phases }
]
removal_step_from h _ s = s

unfoldable pub removal_step : ProfileDir → RemovalEvent → ProfileDir
unfolding removal_step_from
removal_step s (claim h) = start_caller h claiming s
removal_step s (remove_profile h) = start_caller h removing s
removal_step s (next h) = elim (get h s.phases) [ none ↦ s | some p ↦ removal_step_from h p s ]

unfoldable pub removal_steps : ProfileDir → List RemovalEvent → ProfileDir
unfolding removal_step
removal_steps s [] = s
removal_steps s (e ∷ rest) = removal_steps (removal_step s e) rest
