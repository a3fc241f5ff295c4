-- ===== src/Reaper/History.antt =====
-- The clocks over many sweeps: a clock that reads a time has run through every sweep since then.
use agent_first_http.Prelude.{
  ℕ, ◌-◌, ◌≤◌, ◌<◌, ◌≡◌, refl, sym, ap, subst, ◌∙◌, ◌⊎◌, inl, inr, Text, Bool, true, false, ◌&&◌,
  Option, none, some, List, [], ◌∷◌, ltb, if◌then◌else◌, Bool-cases, Option-cases, arith, text_eq,
  text_eq_iff, member, get, put, remove, retain_keys, get-put, get-remove, get-retain_keys,
  text_keys,
}
use agent_first_http.Reaper.Sweep.{
  TargetInfo, PageTarget, page_targets, Tracker, Answers, spared, visit, ids, close_all,
  sweep_targets, sweep, since_or, follow, ask, no_orphans,
}
use agent_first_http.Reaper.Safety.{
  IsUndriven, not_spared, since_of, visit-spared, visit-idle, follow-same, expired-MayReap,
}

-- The browser could not be asked for its targets, while there were orphans to ask about.
abbrev pub IsUnreached : Answers → Type 0
IsUnreached a = (a.targets ≡ none) × (no_orphans a.orphans ≡ false)

-- At a sweep, nothing showed that the target is in use: no credential was live, and no driver could be
-- at it, or the browser could not be asked.
pub record IsIdle (a : Answers) (id : Text) : Type 0 where
  pub no_human : a.live_credentials ≡ false
  pub undriven : IsUndriven a id ⊎ IsUnreached a

-- The tracker after a history of sweeps, the latest first.
unfoldable pub after : ℕ → List Answers → Tracker
after timeout [] = record { ws_url = []; idle_since = [] }
after timeout (a ∷ h) = (sweep timeout a (after timeout h)).tracker

-- The target was idle at the latest sweeps of a history, back to one at time `s`.
abbrev pub IdleSince : List Answers → Text → ℕ → Type 0
IdleSince [] id s = ⊥
IdleSince (a ∷ h) id s = IsIdle a id × ((a.now ≡ s) ⊎ IdleSince h id s)

module _ (timeout : ℕ) (a : Answers) (id : Text) where
  untouched :
      (ts : List PageTarget) (clocks : List (Text × ℕ))
      → member id (ids ts) ≡ false
      → get id (visit timeout a ts clocks).0 ≡ get id clocks
  unfolding ids member visit
  untouched [] clocks h = refl
  untouched (t ∷ ts) clocks h = elim (Bool-cases (spared a t)) [
    | inl s ↦
        ap (λ (r : List (Text × ℕ) × List Text). get id r.0) (visit-spared timeout a t ts clocks s)
        ∙ untouched ts (remove t.id clocks) (ground arith)
        ∙ ground (arith, get-remove t.id id clocks)
    | inr s ↦
        ap (λ (r : List (Text × ℕ) × List Text). get id r.0) (visit-idle timeout a t ts clocks s)
        ∙ untouched ts (put t.id (since_of a t clocks) clocks) (ground arith)
        ∙ ground (arith, get-put t.id id (since_of a t clocks) clocks)
  ]

  -- A clock that a target has after the loop was there before, or was started by it.
  abbrev Clocked : ℕ → List (Text × ℕ) → Type 0
  Clocked s clocks = IsUndriven a id × ((get id clocks ≡ some s) ⊎ (a.now ≡ s))

  before_remove :
      (k : Text) (clocks : List (Text × ℕ)) (s : ℕ)
      → get id (remove k clocks) ≡ some s
      → (text_eq k id ≡ false) × (get id clocks ≡ some s)
  before_remove k clocks s h = ground (arith, get-remove k id clocks)

  before_put :
      (k : Text) (clocks : List (Text × ℕ)) (s : ℕ)
      → get id (put k (since_or (get k clocks) a.now) clocks) ≡ some s
      → (get id clocks ≡ some s) ⊎ (a.now ≡ s)
  before_put k clocks s h = elim (Bool-cases (text_eq k id)) [
    | inr e ↦ inl (ground (arith, get-put k id (since_or (get k clocks) a.now) clocks))
    | inl e ↦
        let same : k ≡ id = (text_eq_iff k id).0 e in
        let now_or : some (since_or (get k clocks) a.now) ≡ some s =
          ground (arith, get-put k id (since_or (get k clocks) a.now) clocks) in
        started (get id clocks) (rw same at now_or)
  ]
    where
      started : (o : Option ℕ) → some (since_or o a.now) ≡ some s → (o ≡ some s) ⊎ (a.now ≡ s)
      started none e = inr (ground arith)
      started (some n) e = inl e

  visit-Clocked :
      (ts : List PageTarget) (clocks : List (Text × ℕ)) (s : ℕ)
      → member id (ids ts) ≡ true
      → get id (visit timeout a ts clocks).0 ≡ some s
      → Clocked s clocks
  unfolding ids member
  visit-Clocked [] clocks s m h = absurd (ground arith)
  visit-Clocked (t ∷ ts) clocks s m h = elim (Bool-cases (spared a t)) [
    | inl p ↦
        spared_case (visit-Clocked ts (remove t.id clocks) s)
          (rw (visit-spared timeout a t ts clocks p) at h)
    | inr p ↦
        idle_case p (visit-Clocked ts (put t.id (since_of a t clocks) clocks) s)
          (rw (visit-idle timeout a t ts clocks p) at h)
  ]
    where
      spared_case :
          (member id (ids ts) ≡ true
            → get id (visit timeout a ts (remove t.id clocks)).0 ≡ some s
            → Clocked s (remove t.id clocks))
          → get id (visit timeout a ts (remove t.id clocks)).0 ≡ some s
          → Clocked s clocks
      spared_case ih g = elim (Bool-cases (member id (ids ts))) [
        | inl q ↦ let r = ih q g in (r.0, earlier r.1)
        | inr q ↦ absurd (
            ground
              (arith, before_remove t.id clocks s (sym (untouched ts (remove t.id clocks) q) ∙ g)))
      ]
        where
          earlier :
              (get id (remove t.id clocks) ≡ some s) ⊎ (a.now ≡ s)
              → (get id clocks ≡ some s) ⊎ (a.now ≡ s)
          earlier (inl e) = inl (before_remove t.id clocks s e).1
          earlier (inr e) = inr e

      idle_case :
          spared a t ≡ false
          → (member id (ids ts) ≡ true
              → get id (visit timeout a ts (put t.id (since_of a t clocks) clocks)).0 ≡ some s
              → Clocked s (put t.id (since_of a t clocks) clocks))
          → get id (visit timeout a ts (put t.id (since_of a t clocks) clocks)).0 ≡ some s
          → Clocked s clocks
      idle_case p ih g = elim (Bool-cases (member id (ids ts))) [
        | inl q ↦ let r = ih q g in (r.0, earlier r.1)
        | inr q ↦ (
          subst (IsUndriven a) ((text_eq_iff t.id id).0 (ground arith)) (not_spared a t p).1,
          before_put t.id clocks s
              (sym (untouched ts (put t.id (since_of a t clocks) clocks) q) ∙ g),
        )
      ]
        where
          earlier :
              (get id (put t.id (since_of a t clocks) clocks) ≡ some s) ⊎ (a.now ≡ s)
              → (get id clocks ≡ some s) ⊎ (a.now ≡ s)
          earlier (inl e) = before_put t.id clocks s e
          earlier (inr e) = inr e

close_all-keeps :
    (closes : Text → Bool) (id : Text) (expired : List Text) (clocks : List (Text × ℕ)) (s : ℕ)
    → get id (close_all closes expired clocks) ≡ some s
    → get id clocks ≡ some s
unfolding close_all
close_all-keeps closes id [] clocks s h = h
close_all-keeps closes id (x ∷ xs) clocks s h = ground (
  arith,
  close_all-keeps closes id xs (if closes x then remove x clocks else clocks) s h,
  get-remove x id clocks,
)

-- A clock that a target has after a sweep: the target was idle at it, and the clock was there before
-- or was started by it.
module _ (timeout : ℕ) (a : Answers) (tracker : Tracker) (id : Text) (s : ℕ) where
  abbrev Carried : Type 0
  Carried = IsIdle a id × ((a.now ≡ s) ⊎ (get id tracker.idle_since ≡ some s))

  swept-Carried :
      (ws : Text) (ts : List TargetInfo)
      → a.live_credentials ≡ false
      → get id (sweep_targets timeout a ts (follow ws tracker)).tracker.idle_since ≡ some s
      → Carried
  unfolding sweep_targets
  swept-Carried ws ts c h =
      let pages = page_targets ts in
      let result = visit timeout a pages (follow ws tracker).idle_since in
      let kept =
        close_all-keeps a.closes id result.1 (retain_keys (λ x. member x (ids pages)) result.0) s
          h in
      let clock = get-retain_keys (λ x. member x (ids pages)) id result.0 in
      let r =
        visit-Clocked timeout a id pages (follow ws tracker).idle_since s (ground arith)
          (ground arith) in
      (record { no_human = c; undriven = inl r.0 }, earlier r.1)
    where
      earlier :
          (get id (follow ws tracker).idle_since ≡ some s) ⊎ (a.now ≡ s)
          → (a.now ≡ s) ⊎ (get id tracker.idle_since ≡ some s)
      earlier (inl e) = inr (follow-same ws tracker id e).1
      earlier (inr e) = inl e

  asked-Carried :
      (ws : Text) (targets : Option (List TargetInfo))
      → a.targets ≡ targets
      → a.live_credentials ≡ false
      → (ltb 0 a.cdp_clients && no_orphans a.orphans) ≡ false
      → get id (ask timeout a targets (follow ws tracker)).tracker.idle_since ≡ some s
      → Carried
  asked-Carried ws (some ts) q c d h = swept-Carried ws ts c h
  asked-Carried ws none q c d h =
      (record { no_human = c; undriven = undriven }, inr (follow-same ws tracker id h).1)
    where
      undriven : IsUndriven a id ⊎ IsUnreached a
      undriven = elim (Bool-cases (no_orphans a.orphans)) [
        | inl e ↦ inl (inl (ground arith))
        | inr e ↦ inr (q, e)
      ]

  sweep-Carried : get id (sweep timeout a tracker).tracker.idle_since ≡ some s → Carried
  unfolding sweep get
  sweep-Carried h = elim (Option-cases a.profile) [
    | inl p ↦ absurd (ground arith)
    | inr p ↦ elim (Bool-cases a.live_credentials) [
      | inl c ↦ absurd (ground arith)
      | inr c ↦ elim (Bool-cases (ltb 0 a.cdp_clients && no_orphans a.orphans)) [
        | inl d ↦ absurd (ground arith)
        | inr d ↦ asked-Carried p.0 a.targets refl c d (ground arith)
      ]
    ]
  ]

clocks-IdleSince :
    (timeout : ℕ) (h : List Answers) (id : Text) (s : ℕ)
    → get id (after timeout h).idle_since ≡ some s
    → IdleSince h id s
unfolding after get
clocks-IdleSince timeout [] id s e = absurd (ground arith)
clocks-IdleSince timeout (a ∷ h) id s e =
    let c = sweep-Carried timeout a (after timeout h) id s e in
    (c.0, on (clocks-IdleSince timeout h id s) c.1)
  where
    on :
        (get id (after timeout h).idle_since ≡ some s → IdleSince h id s)
        → (a.now ≡ s) ⊎ (get id (after timeout h).idle_since ≡ some s)
        → (a.now ≡ s) ⊎ IdleSince h id s
    on f (inl q) = inl q
    on f (inr q) = inr (f q)

-- With a timeout above 0, a sweep that follows any history of sweeps asks the browser to close a target
-- only if there is a time, at least the timeout before the sweep, such that at the sweep, and at every
-- earlier one back to a sweep made at that time, no takeover credential was live and no driver could be
-- at the target, or the browser could not be asked while there were orphans.
pub expired-IdleSince :
    (timeout : ℕ) (a : Answers) (h : List Answers) (id : Text)
    → 0 < timeout
    → member id (sweep timeout a (after timeout h)).expired ≡ true
    → IsIdle a id × ((s : ℕ) × (timeout ≤ a.now - s) × IdleSince h id s)
expired-IdleSince timeout a h id long e =
    let m = expired-MayReap timeout a (after timeout h) id long e in
    (
      record { no_human = m.no_human; undriven = inl m.undriven },
      (m.idle_since.0, m.idle_since.2, clocks-IdleSince timeout h id m.idle_since.0 m.idle_since.1),
    )
