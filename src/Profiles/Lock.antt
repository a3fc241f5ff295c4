-- ===== src/Profiles/Lock.antt =====
-- sdk/profile/lock.rs: the lock of a profile's directory, as processes take it, probe it and let it go
-- side by side. Each call of the file system is a step of its own.
use agent_first_http.Prelude.{
  ℕ, Bool, true, false, Option, none, some, List, [], ◌∷◌, if◌then◌else◌, ◌==◌, nat_eq, get, put,
}
use agent_first_http.Errors.{ErrorCode, profile_locked, io_error}

-- Where a caller is, between two calls of the file system. The flag of a probe says that it is the one
-- of `status`.
pub data Phase : Type 0 where
  -- `Guard::acquire`: before the file is opened; before it is locked; before the pid is written.
  opening opened entered : Phase
  -- The guard is held; the flag says whether the pid was written.
  guarding : Bool → Phase
  -- `drop`: the pid is removed, and the file not yet unlocked.
  leaving left : Phase
  refused : ErrorCode → Phase
  -- `probe`: before the look for the file; before it is opened; before it is locked; before it is unlocked.
  looking present probing holding : Bool → Phase
  -- The answer of a probe, and of `status`.
  answered : Bool → Bool → Phase
  reported : Bool → Option ℕ → Phase
  crashed : Phase

-- The directory: whether the lock file is there, who has it locked, and what the pid file says.
pub record LockDir : Type 0 where
  pub exists_ : Bool
  pub owner : Option ℕ
  pub pid : Option ℕ
  pub phases : List (ℕ × Phase)

abbrev pub unlocked : LockDir
unlocked = record { exists_ = false; owner = none; pid = none; phases = [] }

pub data LockEvent : Type 0 where
  -- A new caller, under a number of its own, calls `acquire`, `probe` or `status`.
  acquire probe status : ℕ → LockEvent
  -- A caller does its next call of the file system; the flag says whether that can succeed.
  proceed : ℕ → Bool → LockEvent
  -- A guard is dropped; the flag says whether the pid file can be removed.
  drop_guard : ℕ → Bool → LockEvent
  -- A process ends: the system takes the lock from it.
  crash : ℕ → LockEvent

abbrev pub is_free : Option ℕ → Bool
is_free none = true
is_free (some _) = false

abbrev pub owned_by : ℕ → Option ℕ → Bool
owned_by h none = false
owned_by h (some k) = h == k

abbrev pub set_phase : ℕ → Phase → LockDir → LockDir
set_phase h p s = record s { phases = put h p s.phases }

-- `file.try_lock_exclusive()`
abbrev pub try_lock : ℕ → Phase → Phase → LockDir → LockDir
try_lock h taken failed s =
    if is_free s.owner
    then record s { owner = some h; phases = put h taken s.phases }
    else set_phase h failed s

-- `unlock`, by one that has the lock.
abbrev pub unlock : ℕ → Phase → LockDir → LockDir
unlock h after s = record s { owner = none; phases = put h after s.phases }

-- The next call of the file system, by phase; `pid_of` gives the process of a caller.
unfoldable pub advance : (ℕ → ℕ) → ℕ → Bool → Phase → LockDir → LockDir
advance pid_of h ok opening s =
    if ok
    then record s { exists_ = true; phases = put h opened s.phases }
    else set_phase h (refused io_error) s
advance pid_of h ok opened s = try_lock h entered (refused profile_locked) s
advance pid_of h ok entered s = record s {
  pid = if ok then some (pid_of h) else s.pid;
  phases = put h (guarding ok) s.phases;
}
advance pid_of h ok leaving s = unlock h left s
advance pid_of h ok (looking b) s =
    if s.exists_ then set_phase h (present b) s else set_phase h (answered b false) s
advance pid_of h ok (present b) s =
    if ok then set_phase h (probing b) s else set_phase h (answered b true) s
advance pid_of h ok (probing b) s = try_lock h (holding b) (answered b true) s
advance pid_of h ok (holding b) s = unlock h (answered b false) s
advance pid_of h ok (answered true locked) s =
    set_phase h (reported locked (if locked then (if ok then s.pid else none) else none)) s
advance pid_of h ok _ s = s

abbrev pub begun : ℕ → Phase → LockDir → LockDir
begun h p s = elim (get h s.phases) [ none ↦ set_phase h p s | some _ ↦ s ]

abbrev pub dropping : ℕ → Bool → Phase → LockDir → LockDir
dropping h ok (guarding _) s = record s {
  pid = if ok then none else s.pid;
  phases = put h leaving s.phases;
}
dropping h ok _ s = s

unfoldable pub lock_step : (ℕ → ℕ) → LockDir → LockEvent → LockDir
unfolding advance
lock_step pid_of s (acquire h) = begun h opening s
lock_step pid_of s (probe h) = begun h (looking false) s
lock_step pid_of s (status h) = begun h (looking true) s
lock_step pid_of s (proceed h ok) = elim (get h s.phases) [
  | none ↦ s
  | some p ↦ advance pid_of h ok p s
]
lock_step pid_of s (drop_guard h ok) = elim (get h s.phases) [
  | none ↦ s
  | some p ↦ dropping h ok p s
]
lock_step pid_of s (crash h) = record s {
  owner = if owned_by h s.owner then none else s.owner;
  phases = put h crashed s.phases;
}

unfoldable pub lock_steps : (ℕ → ℕ) → LockDir → List LockEvent → LockDir
unfolding lock_step
lock_steps pid_of s [] = s
lock_steps pid_of s (e ∷ rest) = lock_steps pid_of (lock_step pid_of s e) rest
