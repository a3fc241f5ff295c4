-- ===== src/Readiness/Tests.antt =====
-- Samples of a page at concrete times.
use agent_first_http.Prelude.{ℕ, ◌≡◌, refl, true, false, List, [], ◌∷◌, ◌⊎◌}
use agent_first_http.Readiness.Stability.{
  PageMetrics, is_same_dom, is_same_text, track_from, observe, after,
}
use agent_first_http.Readiness.Held.{Settled, after-Settled}

abbrev loaded : PageMetrics
loaded = record { text_len = 9; text_hash = 1; node_count = 4; dom_hash = 7 }

abbrev moved : PageMetrics
moved = record loaded { node_count = 5; dom_hash = 8 }

abbrev earlier : List (PageMetrics × ℕ)
earlier = (moved, 600) ∷ (loaded, 100) ∷ []

-- The text has been the same since 100, the DOM since 600.
text_alone :
    ((after 500 0 ((moved, 900) ∷ earlier)).text_stable ≡ true)
    × ((after 500 0 ((moved, 900) ∷ earlier)).dom_stable ≡ false)
    × ((after 500 0 ((moved, 1100) ∷ earlier)).dom_stable ≡ true)
unfolding after observe track_from is_same_dom is_same_text
text_alone = (refl, refl, refl)

after-Settled_example :
    let t = after 500 0 ((moved, 900) ∷ earlier) in
    ((t.text_stable ≡ false) ⊎ Settled is_same_text moved 500 900 ((moved, 900) ∷ earlier))
    × ((t.dom_stable ≡ false) ⊎ Settled is_same_dom moved 500 900 ((moved, 900) ∷ earlier))
after-Settled_example = after-Settled 500 0 moved 900 earlier
