-- ===== src/Readiness/Stability.antt =====
-- `StabilityTracker` of sdk/fetch/pipeline/browser/wait.rs. Instants are numbers.
use agent_first_http.Prelude.{
  ℕ, ◌-◌, Bool, false, not, ◌&&◌, Option, none, some, List, [], ◌∷◌, leb, ◌==◌, if◌then◌else◌,
}
use agent_first_http.Listener.Requests.{is_some_and}

pub record PageMetrics : Type 0 where
  pub text_len : ℕ
  pub text_hash : ℕ
  pub node_count : ℕ
  pub dom_hash : ℕ

pub record StabilityTracker : Type 0 where
  pub last : Option PageMetrics
  pub dom_unchanged_since : ℕ
  pub text_unchanged_since : ℕ
  pub dom_stable : Bool
  pub text_stable : Bool

-- `StabilityTracker::new`
unfoldable pub track_from : ℕ → StabilityTracker
track_from now = record {
  last = none;
  dom_unchanged_since = now;
  text_unchanged_since = now;
  dom_stable = false;
  text_stable = false;
}

unfoldable pub is_same_dom : PageMetrics → PageMetrics → Bool
is_same_dom m l = l.node_count == m.node_count && l.dom_hash == m.dom_hash

unfoldable pub is_same_text : PageMetrics → PageMetrics → Bool
is_same_text m l = l.text_len == m.text_len && l.text_hash == m.text_hash

unfoldable pub observe : PageMetrics → ℕ → ℕ → StabilityTracker → StabilityTracker
observe metrics stable_for now t =
    let same_dom = is_some_and t.last (is_same_dom metrics) in
    let same_text = is_some_and t.last (is_same_text metrics) in
    let dom_since = if not same_dom then now else t.dom_unchanged_since in
    let text_since = if not same_text then now else t.text_unchanged_since in
    record {
      last = some metrics;
      dom_unchanged_since = dom_since;
      text_unchanged_since = text_since;
      dom_stable = same_dom && leb stable_for (now - dom_since);
      text_stable = same_text && leb stable_for (now - text_since);
    }

-- The tracker after samples, the newest first, each with its time.
unfoldable pub after : ℕ → ℕ → List (PageMetrics × ℕ) → StabilityTracker
after stable_for start [] = track_from start
after stable_for start ((m, now) ∷ older) = observe m stable_for now (after stable_for start older)
