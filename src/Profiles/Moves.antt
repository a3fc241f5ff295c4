-- ===== src/Profiles/Moves.antt =====
-- How a step of one caller of a profile's lock keeps what holds of all of them.
use agent_first_http.Prelude.{
  ℕ, Bool, true, false, ◌≡◌, refl, sym, ap, ◌∙◌, some, inl, inr, if◌then◌else◌, ◌==◌, ==_iff,
  Bool-cases, nat_eq, get, put, get-put, ◌⊎◌,
}
use agent_first_http.Profiles.Lock.{
  Phase, entered, guarding, leaving, holding, LockDir, is_free, set_phase, try_lock, unlock,
}

-- The phases in which a caller has the lock.
abbrev pub has_lock : Phase → Bool
has_lock entered = true
has_lock (guarding _) = true
has_lock leaving = true
has_lock (holding _) = true
has_lock _ = false

-- The pid that a phase has written.
abbrev pub has_written : Phase → Bool
has_written (guarding true) = true
has_written _ = false

module _ (pid_of : ℕ → ℕ) where
  -- Who has the lock owns it, and the pid of a guard is that of its process.
  pub record IsExclusive (s : LockDir) : Type 0 where
    pub held : (h : ℕ) (p : Phase) → get h s.phases ≡ some p → has_lock p ≡ true → s.owner ≡ some h
    pub written :
        (h : ℕ) (p : Phase)
        → get h s.phases ≡ some p
        → has_written p ≡ true
        → s.pid ≡ some (pid_of h)

  -- A caller moves on, and leaves the lock and the pid of another owner alone.
  pub record Moves (s t : LockDir) (h : ℕ) (p : Phase) : Type 0 where
    pub phases : t.phases ≡ put h p s.phases
    pub takes : has_lock p ≡ true → t.owner ≡ some h
    pub writes : has_written p ≡ true → t.pid ≡ some (pid_of h)
    pub others :
        (k : ℕ) → (h == k) ≡ false → s.owner ≡ some k → (t.owner ≡ some k) × (t.pid ≡ s.pid)

  pub written-holds : (p : Phase) → has_written p ≡ true → has_lock p ≡ true
  written-holds (guarding true) e = refl
  written-holds (guarding false) e = cc
  written-holds _ e = cc

  moved :
      (s t : LockDir) (h k : ℕ) (p q : Phase)
      → t.phases ≡ put h p s.phases
      → get k t.phases ≡ some q
      → ((h == k) ≡ true) × (p ≡ q) ⊎ ((h == k) ≡ false) × (get k s.phases ≡ some q)
  moved s t h k p q e found =
      let after : (if h == k then some p else get k s.phases) ≡ some q =
        sym (get-put h k p s.phases) ∙ (sym (ap (get k) e) ∙ found) in
      elim (Bool-cases (h == k)) [
        | inl own ↦ let same : some p ≡ some q = rw own at after in inl (own, cc)
        | inr other ↦ inr (other, rw other at after)
      ]

  pub move-IsExclusive :
      (s t : LockDir) (h : ℕ) (p : Phase) → Moves s t h p → IsExclusive s → IsExclusive t
  move-IsExclusive s t h p m sound = record {
    held = λ k q found holds. elim (moved s t h k p q m.phases found) [
      | inl (own, same) ↦
          m.takes (ap has_lock same ∙ holds) ∙ ap (λ (j : ℕ). some j) ((==_iff h k).0 own)
      | inr (other, old) ↦ (m.others k other (sound.held k q old holds)).0
    ];
    written = λ k q found wrote. elim (moved s t h k p q m.phases found) [
      | inl (own, same) ↦
          m.writes (ap has_written same ∙ wrote)
          ∙ ap (λ (j : ℕ). some (pid_of j)) ((==_iff h k).0 own)
      | inr (other, old) ↦
          (m.others k other (sound.held k q old (written-holds q wrote))).1
          ∙ sound.written k q old wrote
    ];
  }

  -- A step that touches neither the lock nor the pid.
  pub quiet-IsExclusive :
      (s t : LockDir) (h : ℕ) (p : Phase)
      → t.phases ≡ put h p s.phases
      → t.owner ≡ s.owner
      → t.pid ≡ s.pid
      → has_lock p ≡ false
      → IsExclusive s
      → IsExclusive t
  quiet-IsExclusive s t h p phases owner pid idle sound =
      move-IsExclusive s t h p
        (record {
          phases = phases;
          takes = λ e. let bad : true ≡ false = sym e ∙ idle in cc;
          writes = λ e. let bad : true ≡ false = sym (written-holds p e) ∙ idle in cc;
          others = λ k other e. (owner ∙ e, pid);
        })
        sound

  -- A step of one that has the lock, or that takes it when it is free.
  pub owner-IsExclusive :
      (s t : LockDir) (h : ℕ) (p : Phase)
      → t.phases ≡ put h p s.phases
      → ((k : ℕ) → s.owner ≡ some k → h ≡ k)
      → (has_lock p ≡ true → t.owner ≡ some h)
      → (has_written p ≡ true → t.pid ≡ some (pid_of h))
      → IsExclusive s
      → IsExclusive t
  owner-IsExclusive s t h p phases mine takes writes sound =
      move-IsExclusive s t h p
        (record {
          phases = phases;
          takes = takes;
          writes = writes;
          others =
              λ k other e. let bad : true ≡ false = sym ((==_iff h k).1 (mine k e)) ∙ other in cc;
        })
        sound

  -- Only the owner is an owner.
  pub held_mine :
      (s : LockDir) (h : ℕ) (p : Phase)
      → IsExclusive s
      → get h s.phases ≡ some p
      → has_lock p ≡ true
      → (k : ℕ) → s.owner ≡ some k
      → h ≡ k
  held_mine s h p sound found holds k e =
      let same : some h ≡ some k = sym (sound.held h p found holds) ∙ e in cc

  pub try_lock-IsExclusive :
      (s : LockDir) (h : ℕ) (taken failed : Phase)
      → has_lock failed ≡ false
      → has_written taken ≡ false
      → IsExclusive s
      → IsExclusive (try_lock h taken failed s)
  try_lock-IsExclusive s h taken failed idle fresh sound = elim (Bool-cases (is_free s.owner)) [
    | inl free ↦ rw free (
        owner-IsExclusive s (record s { owner = some h; phases = put h taken s.phases }) h taken
          refl (λ k e. let bad : false ≡ true = sym (ap is_free e) ∙ free in cc) (λ e. refl)
          (λ e. let bad : true ≡ false = sym e ∙ fresh in cc) sound)
    | inr busy ↦
        rw busy (quiet-IsExclusive s (set_phase h failed s) h failed refl refl refl idle sound)
  ]

  pub unlock-IsExclusive :
      (s : LockDir) (h : ℕ) (p after : Phase)
      → get h s.phases ≡ some p
      → has_lock p ≡ true
      → has_lock after ≡ false
      → IsExclusive s
      → IsExclusive (unlock h after s)
  unlock-IsExclusive s h p after found holds idle sound =
      owner-IsExclusive s (unlock h after s) h after refl (held_mine s h p sound found holds)
        (λ e. let bad : true ≡ false = sym e ∙ idle in cc)
        (λ e. let bad : true ≡ false = sym (written-holds after e) ∙ idle in cc) sound

  pub phase-IsExclusive :
      (s : LockDir) (h : ℕ) (p : Phase)
      → has_lock p ≡ false
      → IsExclusive s
      → IsExclusive (set_phase h p s)
  phase-IsExclusive s h p idle sound =
      quiet-IsExclusive s (set_phase h p s) h p refl refl refl idle sound
