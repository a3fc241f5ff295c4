-- ===== src/Profiles/Exclusion.antt =====
-- What holds while callers of a profile's lock run side by side.
use agent_first_http.Prelude.{
  ℕ, Bool, true, false, ◌≡◌, refl, sym, ap, ◌∙◌, some, List, [], ◌∷◌, inl, inr, if◌then◌else◌,
  Option-cases, nat_eq, get, put, if_intro,
}
use agent_first_http.Profiles.Lock.{
  Phase, opening, opened, entered, guarding, leaving, left, looking, present, probing, holding,
  answered, crashed, LockDir, unlocked, LockEvent, acquire, probe, status, proceed, drop_guard,
  crash, owned_by, advance, begun, dropping, lock_step, lock_steps,
}
use agent_first_http.Profiles.Moves.{
  has_lock, has_written, IsExclusive, move-IsExclusive, quiet-IsExclusive, owner-IsExclusive,
  held_mine, try_lock-IsExclusive, unlock-IsExclusive, phase-IsExclusive,
}

module _ (pid_of : ℕ → ℕ) where
  advance-IsExclusive :
      (s : LockDir) (h : ℕ) (ok : Bool) (p : Phase)
      → get h s.phases ≡ some p
      → IsExclusive pid_of s
      → IsExclusive pid_of (advance pid_of h ok p s)
  unfolding advance
  advance-IsExclusive s h true opening found sound =
      quiet-IsExclusive pid_of s (record s { exists_ = true; phases = put h opened s.phases }) h
        opened refl refl refl refl sound
  advance-IsExclusive s h false opening found sound = phase-IsExclusive pid_of s h _ refl sound
  advance-IsExclusive s h ok opened found sound =
      try_lock-IsExclusive pid_of s h _ _ refl refl sound
  advance-IsExclusive s h ok entered found sound =
      owner-IsExclusive pid_of s (advance pid_of h ok entered s) h (guarding ok) refl
        (held_mine pid_of s h entered sound found refl) (λ e. sound.held h entered found refl)
        (written_pid ok) sound
    where
      written_pid :
          (b : Bool)
          → has_written (guarding b) ≡ true
          → (if b then some (pid_of h) else s.pid) ≡ some (pid_of h)
      written_pid true e = refl
      written_pid false e = cc
  advance-IsExclusive s h ok leaving found sound =
      unlock-IsExclusive pid_of s h leaving left found refl refl sound
  advance-IsExclusive s h ok (looking b) found sound =
      if_intro (IsExclusive pid_of) s.exists_
        (λ e. phase-IsExclusive pid_of s h (present b) refl sound)
        (λ e. phase-IsExclusive pid_of s h (answered b false) refl sound)
  advance-IsExclusive s h true (present b) found sound = phase-IsExclusive pid_of s h _ refl sound
  advance-IsExclusive s h false (present b) found sound = phase-IsExclusive pid_of s h _ refl sound
  advance-IsExclusive s h ok (probing b) found sound =
      try_lock-IsExclusive pid_of s h _ _ refl refl sound
  advance-IsExclusive s h ok (holding b) found sound =
      unlock-IsExclusive pid_of s h (holding b) _ found refl refl sound
  advance-IsExclusive s h ok (answered true locked) found sound =
      phase-IsExclusive pid_of s h _ refl sound
  advance-IsExclusive s h ok _ found sound = sound

  dropping-IsExclusive :
      (s : LockDir) (h : ℕ) (ok : Bool) (p : Phase)
      → get h s.phases ≡ some p
      → IsExclusive pid_of s
      → IsExclusive pid_of (dropping h ok p s)
  dropping-IsExclusive s h ok (guarding w) found sound =
      owner-IsExclusive pid_of s (dropping h ok (guarding w) s) h leaving refl
        (held_mine pid_of s h (guarding w) sound found refl)
        (λ e. sound.held h (guarding w) found refl) (λ e. cc) sound
  dropping-IsExclusive s h ok _ found sound = sound

  begun-IsExclusive :
      (s : LockDir) (h : ℕ) (p : Phase)
      → has_lock p ≡ false
      → IsExclusive pid_of s
      → IsExclusive pid_of (begun h p s)
  begun-IsExclusive s h p idle sound = elim (Option-cases (get h s.phases)) [
    | inl fresh ↦ rw (fresh, begun) (phase-IsExclusive pid_of s h p idle sound)
    | inr (q, e) ↦ rw (e, begun) sound
  ]

  crash-IsExclusive :
      (s : LockDir) (h : ℕ)
      → IsExclusive pid_of s
      → IsExclusive pid_of (lock_step pid_of s (crash h))
  unfolding lock_step
  crash-IsExclusive s h sound =
      move-IsExclusive pid_of s (lock_step pid_of s (crash h)) h crashed
        (record {
          phases = refl;
          takes = λ e. cc;
          writes = λ e. cc;
          others = λ k other e. (rw (e, owned_by) (rw other refl), refl);
        })
        sound

  lock_step-IsExclusive :
      (s : LockDir) (e : LockEvent)
      → IsExclusive pid_of s
      → IsExclusive pid_of (lock_step pid_of s e)
  unfolding lock_step
  lock_step-IsExclusive s (acquire h) sound = begun-IsExclusive s h opening refl sound
  lock_step-IsExclusive s (probe h) sound = begun-IsExclusive s h (looking false) refl sound
  lock_step-IsExclusive s (status h) sound = begun-IsExclusive s h (looking true) refl sound
  lock_step-IsExclusive s (proceed h ok) sound = elim (Option-cases (get h s.phases)) [
    | inl absent ↦ rw (absent, lock_step) sound
    | inr (p, e) ↦ rw (e, lock_step) (advance-IsExclusive s h ok p e sound)
  ]
  lock_step-IsExclusive s (drop_guard h ok) sound = elim (Option-cases (get h s.phases)) [
    | inl absent ↦ rw (absent, lock_step) sound
    | inr (p, e) ↦ rw (e, lock_step) (dropping-IsExclusive s h ok p e sound)
  ]
  lock_step-IsExclusive s (crash h) sound = crash-IsExclusive s h sound

  lock_steps-IsExclusive :
      (s : LockDir) (events : List LockEvent)
      → IsExclusive pid_of s
      → IsExclusive pid_of (lock_steps pid_of s events)
  unfolding lock_steps
  lock_steps-IsExclusive s [] sound = sound
  lock_steps-IsExclusive s (e ∷ rest) sound =
      lock_steps-IsExclusive (lock_step pid_of s e) rest (lock_step-IsExclusive s e sound)

  unlocked-IsExclusive : IsExclusive pid_of unlocked
  unfolding get
  unlocked-IsExclusive = record { held = λ h p e holds. cc; written = λ h p e wrote. cc }

-- Whatever callers acquire, probe, ask for the status, drop their guards and crash, in whatever order their
-- calls of the file system come, and as long as no one removes the lock file: while a guard is held, no
-- other caller has a guard or the lock, and the pid file names the process of the guard, if that could
-- write it.
pub lock_steps-guarded :
    (pid_of : ℕ → ℕ) (events : List LockEvent) (h : ℕ) (wrote : Bool)
    → get h (lock_steps pid_of unlocked events).phases ≡ some (guarding wrote)
    → ((k : ℕ) (p : Phase)
        → get k (lock_steps pid_of unlocked events).phases ≡ some p
        → has_lock p ≡ true
        → k ≡ h)
      × (wrote ≡ true → (lock_steps pid_of unlocked events).pid ≡ some (pid_of h))
lock_steps-guarded pid_of events h wrote found =
    let sound = lock_steps-IsExclusive pid_of unlocked events (unlocked-IsExclusive pid_of) in
    let mine = sound.held h (guarding wrote) found refl in
    (
      λ k p e holds. let same : some k ≡ some h = sym (sound.held k p e holds) ∙ mine in cc,
      λ w. sound.written h (guarding wrote) found (ap (λ (b : Bool). has_written (guarding b)) w),
    )
