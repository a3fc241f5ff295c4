-- ===== src/Reaper/Safety.antt =====
-- What a target that the reaper asks the browser to close must be.
use agent_first_http.Prelude.{
  ℕ, ◌-◌, ◌≤◌, ◌<◌, ◌≡◌, refl, sym, ap, subst, ◌∙◌, ◌⊎◌, inl, inr, Text, Bool, true, false, ◌&&◌,
  Option, none, some, List, [], ◌∷◌, ltb, leb, if◌then◌else◌, Bool-cases, arith, any, text_eq,
  text_eq_iff, member, get, put, remove, get-put, get-remove, text_keys,
}
use agent_first_http.Reaper.Sweep.{
  TargetInfo, PageTarget, page_targets, is_reapable_url, Tracker, Answers, spared, visit,
  sweep_targets, sweep_browser, sweep, since_or, follow, ask, stop, clear, no_orphans,
}

-- A page among the targets, with the id and a web address.
unfoldable pub has_page : Text → List PageTarget → Bool
has_page id pages = any (λ t. text_eq t.id id && is_reapable_url t.url) pages

-- No driver may be at the target: nobody is connected, or it is an orphan.
abbrev pub IsUndriven : Answers → Text → Type 0
IsUndriven a id = (a.cdp_clients ≡ 0) ⊎ (member id a.orphans ≡ true)

pub not_spared :
    (a : Answers) (t : PageTarget)
    → spared a t ≡ false
    → (is_reapable_url t.url ≡ true) × IsUndriven a t.id
unfolding spared
not_spared a t h = ground arith

-- The two ways through the loop.
abbrev pub since_of : Answers → PageTarget → List (Text × ℕ) → ℕ
since_of a t clocks = since_or (get t.id clocks) a.now

pub visit-spared :
    (timeout : ℕ) (a : Answers) (t : PageTarget) (ts : List PageTarget) (clocks : List (Text × ℕ))
    → spared a t ≡ true
    → visit timeout a (t ∷ ts) clocks ≡ visit timeout a ts (remove t.id clocks)
unfolding visit
visit-spared timeout a t ts clocks h = rw (h, visit)

pub visit-idle :
    (timeout : ℕ) (a : Answers) (t : PageTarget) (ts : List PageTarget) (clocks : List (Text × ℕ))
    → spared a t ≡ false
    → let rest = visit timeout a ts (put t.id (since_of a t clocks) clocks) in
      visit timeout a (t ∷ ts) clocks
      ≡ (rest.0, if leb timeout (a.now - since_of a t clocks) then t.id ∷ rest.1 else rest.1)
unfolding visit
visit-idle timeout a t ts clocks h = rw (h, visit)

module _ (timeout : ℕ) (long : 0 < timeout) (a : Answers) (id : Text) where
  -- What holds of a target that the loop finds to be idle for too long.
  abbrev pub Found : List PageTarget → List (Text × ℕ) → Type 0
  Found pages clocks =
      (timeout ≤ a.now - since_or (get id clocks) a.now)
      × (has_page id pages ≡ true)
      × IsUndriven a id

  later-Found :
      (t : PageTarget) (ts : List PageTarget) (before clocks : List (Text × ℕ))
      → (since_or (get id before) a.now ≡ since_or (get id clocks) a.now)
        ⊎ (since_or (get id before) a.now ≡ a.now)
      → Found ts before
      → Found (t ∷ ts) clocks
  unfolding has_page any
  later-Found t ts before clocks (inl e) f = (rw (← e) f.0, ground (arith, f.1), f.2)
  later-Found t ts before clocks (inr e) f = absurd (omega (arith, f.0))

  clock_after_remove :
      (k : Text) (clocks : List (Text × ℕ))
      → (since_or (get id (remove k clocks)) a.now ≡ since_or (get id clocks) a.now)
        ⊎ (since_or (get id (remove k clocks)) a.now ≡ a.now)
  clock_after_remove k clocks = ground (arith, get-remove k id clocks)

  clock_after_put :
      (k : Text) (clocks : List (Text × ℕ))
      → since_or (get id (put k (since_or (get k clocks) a.now) clocks)) a.now
        ≡ since_or (get id clocks) a.now
  clock_after_put k clocks =
      ground (arith, get-put k id (since_or (get k clocks) a.now) clocks, text_eq_iff k id)

  now-Found :
      (t : PageTarget) (ts : List PageTarget) (clocks : List (Text × ℕ))
      → spared a t ≡ false
      → leb timeout (a.now - since_of a t clocks) ≡ true
      → text_eq t.id id ≡ true
      → Found (t ∷ ts) clocks
  unfolding has_page any
  now-Found t ts clocks s late e =
      let same : t.id ≡ id = (text_eq_iff t.id id).0 e in
      let ns = not_spared a t s in
      (
        ground (arith, ap (λ (k : Text). since_or (get k clocks) a.now) same),
        ground (arith, ns.0),
        subst (IsUndriven a) same ns.1,
      )

  idle_case :
      (t : PageTarget) (ts : List PageTarget) (clocks : List (Text × ℕ))
      → spared a t ≡ false
      → (member id (visit timeout a ts (put t.id (since_of a t clocks) clocks)).1 ≡ true
          → Found ts (put t.id (since_of a t clocks) clocks))
      → member id (
          if leb timeout (a.now - since_of a t clocks)
          then t.id ∷ (visit timeout a ts (put t.id (since_of a t clocks) clocks)).1
          else (visit timeout a ts (put t.id (since_of a t clocks) clocks)).1)
        ≡ true
      → Found (t ∷ ts) clocks
  unfolding member
  idle_case t ts clocks s later h = elim (Bool-cases (leb timeout (a.now - since_of a t clocks))) [
    | inr young ↦ next (later (rw young at h))
    | inl late ↦ elim (Bool-cases (text_eq t.id id)) [
      | inl e ↦ now-Found t ts clocks s late e
      | inr e ↦ next (later (ground arith))
    ]
  ]
    where
      next : Found ts (put t.id (since_of a t clocks) clocks) → Found (t ∷ ts) clocks
      next =
          later-Found t ts (put t.id (since_of a t clocks) clocks) clocks
            (inl (clock_after_put t.id clocks))

  visit-Found :
      (ts : List PageTarget) (clocks : List (Text × ℕ))
      → member id (visit timeout a ts clocks).1 ≡ true
      → Found ts clocks
  unfolding visit member
  visit-Found [] clocks h = absurd (ground arith)
  visit-Found (t ∷ ts) clocks h = elim (Bool-cases (spared a t)) [
    | inl s ↦
        later-Found t ts (remove t.id clocks) clocks (clock_after_remove t.id clocks)
          (visit-Found ts (remove t.id clocks) (rw (visit-spared timeout a t ts clocks s) at h))
    | inr s ↦
        idle_case t ts clocks s (visit-Found ts (put t.id (since_of a t clocks) clocks))
          (rw (visit-idle timeout a t ts clocks s) at h)
  ]

-- What justifies asking the browser to close a target.
pub record MayReap (timeout : ℕ) (a : Answers) (tracker : Tracker) (id : Text) : Type 0 where
  pub no_human : a.live_credentials ≡ false
  pub undriven : IsUndriven a id
  pub same_browser : a.profile ≡ some tracker.ws_url
  pub web_page :
      (ts : List TargetInfo) × (a.targets ≡ some ts) × (has_page id (page_targets ts) ≡ true)
  pub idle_since : (s : ℕ) × (get id tracker.idle_since ≡ some s) × (timeout ≤ a.now - s)

recorded :
    (timeout now : ℕ) (o : Option ℕ)
    → 0 < timeout
    → timeout ≤ now - since_or o now
    → (s : ℕ) × (o ≡ some s) × (timeout ≤ now - s)
recorded timeout now none long h = absurd (omega arith)
recorded timeout now (some s) long h = (s, refl, h)

pub follow-same :
    (ws : Text) (tracker : Tracker) (id : Text) {s : ℕ}
    → get id (follow ws tracker).idle_since ≡ some s
    → (ws ≡ tracker.ws_url) × (get id tracker.idle_since ≡ some s)
unfolding follow get
follow-same ws tracker id h = elim (Bool-cases (text_eq tracker.ws_url ws)) [
  | inl e ↦ (sym ((text_eq_iff tracker.ws_url ws).0 e), rw e at h)
  | inr e ↦ absurd (ground arith)
]

none_expired : (tracker : Tracker) (id : Text) → member id (stop tracker).expired ≡ false
unfolding member
none_expired tracker id = refl

module _ (timeout : ℕ) (long : 0 < timeout) (a : Answers) (tracker : Tracker) (id : Text) where
  asked-MayReap :
      (ws : Text) (targets : Option (List TargetInfo))
      → a.profile ≡ some ws
      → a.targets ≡ targets
      → a.live_credentials ≡ false
      → member id (ask timeout a targets (follow ws tracker)).expired ≡ true
      → MayReap timeout a tracker id
  unfolding sweep_targets
  asked-MayReap ws none p q c h = absurd (ground (arith, none_expired (follow ws tracker) id))
  asked-MayReap ws (some ts) p q c h =
      let found =
        visit-Found timeout long a id (page_targets ts) (follow ws tracker).idle_since h in
      let r = recorded timeout a.now (get id (follow ws tracker).idle_since) long found.0 in
      let f = follow-same ws tracker id r.1 in
      record {
        no_human = c;
        undriven = found.2;
        same_browser = p ∙ ap (λ (w : Text). some w) f.0;
        web_page = (ts, q, found.1);
        idle_since = (r.0, f.1, r.2);
      }

  browser-MayReap :
      (p : Option Text)
      → a.profile ≡ p
      → member id (sweep_browser timeout a p tracker).expired ≡ true
      → MayReap timeout a tracker id
  browser-MayReap none p h = absurd (ground (arith, none_expired (clear tracker) id))
  browser-MayReap (some ws) p h = elim (Bool-cases a.live_credentials) [
    | inl c ↦ absurd (ground (arith, none_expired (clear tracker) id))
    | inr c ↦ elim (Bool-cases (ltb 0 a.cdp_clients && no_orphans a.orphans)) [
      | inl d ↦ absurd (ground (arith, none_expired (clear (follow ws tracker)) id))
      | inr d ↦ asked-MayReap ws a.targets p refl c (ground arith)
    ]
  ]

-- With a timeout above 0, a sweep asks the browser to close a target only if no takeover credential
-- is live, nobody is connected or the target is an orphan, the tracker's clocks are those of the
-- active browser, the target is a page with a web address, and its clock has run for the timeout.
pub expired-MayReap :
    (timeout : ℕ) (a : Answers) (tracker : Tracker) (id : Text)
    → 0 < timeout
    → member id (sweep timeout a tracker).expired ≡ true
    → MayReap timeout a tracker id
unfolding sweep
expired-MayReap timeout a tracker id long h =
    browser-MayReap timeout long a tracker id a.profile refl h
