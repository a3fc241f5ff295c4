-- ===== src/Holdings/Holders.antt =====
-- host/listener/mod.rs: which targets the live `/cdp` connections hold, and which nobody holds any more
-- (`AppState::note_holding`, `release_targets`, `retain_orphaned_targets`, `release`).
use agent_first_http.Prelude.{
  ℕ, ◌+◌, ◌-◌, Text, Bool, true, false, Option, none, some, List, [], ◌∷◌, ◌++◌, ltb, if◌then◌else◌,
  keep, member, erase, get, put, remove, text_keys,
}
use agent_first_http.Holdings.Ledger.{Holding, took, closed}

-- The fields of `AppState` that these functions touch.
pub record Holders : Type 0 where
  pub target_holders : List (Text × ℕ)
  pub orphaned_targets : List Text

abbrev pub or_zero : Option ℕ → ℕ
or_zero none = 0
or_zero (some n) = n

release_count : Option ℕ → Text → List (Text × ℕ) → List (Text × ℕ) × Bool
release_count none target m = (m, true)
release_count (some n) target m =
    if ltb 1 n then (put target (n - 1) m, false) else (remove target m, true)

-- `release`
unfoldable pub release : Text → List (Text × ℕ) → List (Text × ℕ) × Bool
unfolding release_count
release target m = release_count (get target m) target m

unfoldable pub note_holding : Option Holding → Holders → Holders
unfolding release
note_holding none s = s
note_holding (some (took target)) s = record {
  target_holders = put target (or_zero (get target s.target_holders) + 1) s.target_holders;
  orphaned_targets = erase target s.orphaned_targets;
}
note_holding (some (closed target)) s = record s {
  target_holders = (release target s.target_holders).0;
}

-- The filter of `release_targets`, which releases as it goes: the map after it, and what it kept.
unfoldable pub release_all : List Text → List (Text × ℕ) → List (Text × ℕ) × List Text
release_all [] m = (m, [])
release_all (t ∷ ts) m =
    let (m', alone) = release t m in
    let (last, orphans) = release_all ts m' in (last, if alone then t ∷ orphans else orphans)

unfoldable pub release_targets : List Text → Holders → Holders
unfolding release_all
release_targets targets s =
    let (m, orphaned) = release_all targets s.target_holders in
    record { target_holders = m; orphaned_targets = orphaned ++ s.orphaned_targets }

-- `retain_orphaned_targets`
unfoldable pub retain_orphaned_targets : List Text → Holders → Holders
retain_orphaned_targets live s = record s {
  orphaned_targets = keep (λ t. member t live) s.orphaned_targets;
}
