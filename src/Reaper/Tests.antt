-- ===== src/Reaper/Tests.antt =====
-- The reaper at concrete sweeps.
use agent_first_http.Prelude.{
  ℕ, ◌≡◌, ◌-◌, ◌≤◌, refl, Text, codes, true, false, none, some, [], ◌∷◌, arith, member, text_keys,
  text_eq, get, put, remove, retain_keys, starts_with,
}
use agent_first_http.Holdings.Connections.{start, run}
use agent_first_http.Holdings.Accounting.{owners}
use agent_first_http.Reaper.Sweep.{TargetInfo, Answers, sweep, visit, spared}
use agent_first_http.Reaper.Safety.{MayReap, expired-MayReap}
use agent_first_http.Reaper.Drivers.{expired-owners}
use agent_first_http.Reaper.History.{IsIdle, IdleSince, after, expired-IdleSince}

abbrev tab : Text
tab = codes "T"

abbrev page : TargetInfo
page = record { type_ = some (codes "page"); target_id = some tab; url = some (codes "https://a/") }

abbrev quiet : ℕ → Answers
quiet now = record {
  profile = some (codes "ws");
  live_credentials = false;
  cdp_clients = 0;
  orphans = [];
  targets = some (page ∷ []);
  now = now;
  closes = λ t. true;
}

-- Two quiet sweeps a timeout apart: the second closes the tab.
two_sweeps :
    ((sweep 10 (quiet 5) (after 10 [])).expired ≡ [])
    × ((sweep 10 (quiet 15) (after 10 (quiet 5 ∷ []))).expired ≡ tab ∷ [])
unfolding after sweep visit spared starts_with text_eq get put remove retain_keys member
two_sweeps = (refl, refl)

tab_expires : member tab (sweep 10 (quiet 15) (after 10 (quiet 5 ∷ []))).expired ≡ true
unfolding after sweep visit spared starts_with text_eq get put remove retain_keys member
tab_expires = refl

expired-MayReap_example : MayReap 10 (quiet 15) (after 10 (quiet 5 ∷ [])) tab
expired-MayReap_example =
    expired-MayReap 10 (quiet 15) (after 10 (quiet 5 ∷ [])) tab (omega arith) tab_expires

expired-IdleSince_example :
    IsIdle (quiet 15) tab × ((s : ℕ) × (10 ≤ 15 - s) × IdleSince (quiet 5 ∷ []) tab s)
expired-IdleSince_example =
    expired-IdleSince 10 (quiet 15) (quiet 5 ∷ []) tab (omega arith) tab_expires

expired-owners_example : owners tab (run [] start).ledgers ≡ 0
unfolding run start
expired-owners_example =
    expired-owners [] 10 (quiet 15) (after 10 (quiet 5 ∷ [])) tab (omega arith) refl refl
      tab_expires

-- A sweep that cannot ask the browser, while some other tab is an orphan, stops no clock, although a
-- client is connected and may be driving the tab.
abbrev unreached : Answers
unreached = record (quiet 12) { cdp_clients = 1; orphans = codes "other" ∷ []; targets = none }

clock_survives_driver :
    (sweep 10 (quiet 15) (after 10 (unreached ∷ quiet 5 ∷ []))).expired ≡ tab ∷ []
unfolding after sweep visit spared starts_with text_eq get put remove retain_keys member
clock_survives_driver = refl
