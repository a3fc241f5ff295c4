-- ===== src/Profiles/LockTests.antt =====
-- Callers of a profile's lock, one after another and side by side.
use agent_first_http.Prelude.{
  ℕ, ◌+◌, true, ◌≡◌, refl, some, List, [], ◌∷◌, ◌++◌, nat_eq, get, put, remove,
}
use agent_first_http.Errors.{profile_locked}
use agent_first_http.Profiles.Lock.{
  Phase, refused, reported, unlocked, LockEvent, acquire, probe, status, proceed, drop_guard, crash,
  advance, lock_step, lock_steps,
}
use agent_first_http.Profiles.Moves.{has_lock}
use agent_first_http.Profiles.Exclusion.{lock_steps-guarded}

abbrev process_of : ℕ → ℕ
process_of h = 100 + h

-- The first caller has a guard.
abbrev first_guard : List LockEvent
first_guard = acquire 1 ∷ proceed 1 true ∷ proceed 1 true ∷ proceed 1 true ∷ []

abbrev reads_status : List LockEvent
reads_status = status 2 ∷ proceed 2 true ∷ proceed 2 true ∷ proceed 2 true ∷ proceed 2 true ∷ []

owner_reported :
    get 2 (lock_steps process_of unlocked (first_guard ++ reads_status)).phases
    ≡ some (reported true (some 101))
unfolding lock_steps lock_step advance get put remove
owner_reported = refl

-- While one caller probes, another that acquires is refused, although nobody has a guard.
refused_by_probe :
    get 4
      (lock_steps process_of unlocked (
        first_guard
        ++ drop_guard 1 true
          ∷ proceed 1 true
          ∷ probe 3
          ∷ proceed 3 true
          ∷ proceed 3 true
          ∷ proceed 3 true
          ∷ acquire 4
          ∷ proceed 4 true
          ∷ proceed 4 true
          ∷ [])).phases
    ≡ some (refused profile_locked)
unfolding lock_steps lock_step advance get put remove
refused_by_probe = refl

-- And `status` reports the pid that a crashed process has left, while another one probes.
crashed_reported :
    get 2
      (lock_steps process_of unlocked (
        first_guard
        ++ crash 1
          ∷ probe 3
          ∷ proceed 3 true
          ∷ proceed 3 true
          ∷ proceed 3 true
          ∷ reads_status)).phases
    ≡ some (reported true (some 101))
unfolding lock_steps lock_step advance get put remove
crashed_reported = refl

lock_steps-guarded_example :
    ((k : ℕ) (p : Phase)
      → get k (lock_steps process_of unlocked (first_guard ++ reads_status)).phases ≡ some p
      → has_lock p ≡ true
      → k ≡ 1)
    × (true ≡ true → (lock_steps process_of unlocked (first_guard ++ reads_status)).pid ≡ some 101)
unfolding lock_steps lock_step advance get put remove
lock_steps-guarded_example = lock_steps-guarded process_of (first_guard ++ reads_status) 1 true refl
