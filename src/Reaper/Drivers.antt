-- ===== src/Reaper/Drivers.antt =====
-- The reaper and the connections together: a tab that a live connection holds is not closed.
use agent_first_http.Prelude.{
  ℕ, ◌≡◌, ◌<◌, refl, inl, inr, Text, true, List, [], ◌∷◌, arith, member, text_keys, length,
}
use agent_first_http.Holdings.Connections.{Event, start, run}
use agent_first_http.Holdings.Ledger.{TargetLedger}
use agent_first_http.Holdings.Accounting.{owners, IsBalanced}
use agent_first_http.Holdings.Orphans.{run-IsBalanced}
use agent_first_http.Reaper.Sweep.{Answers, Tracker, sweep}
use agent_first_http.Reaper.Safety.{expired-MayReap}

no_connections : (t : Text) (ls : List TargetLedger) → length ls ≡ 0 → owners t ls ≡ 0
unfolding owners
no_connections t [] h = refl
no_connections t (l ∷ ls) h = absurd (omega arith)

-- A sweep that is told the client count and the orphans of a host, at any moment of the host's life,
-- asks the browser to close no target that a live connection of the host owns at that moment.
pub expired-owners :
    (evs : List Event) (timeout : ℕ) (a : Answers) (tracker : Tracker) (id : Text)
    → 0 < timeout
    → a.cdp_clients ≡ (run evs start).cdp_clients
    → a.orphans ≡ (run evs start).holders.orphaned_targets
    → member id (sweep timeout a tracker).expired ≡ true
    → owners id (run evs start).ledgers ≡ 0
expired-owners evs timeout a tracker id long clients orphans h =
    let b : IsBalanced (run evs start) = run-IsBalanced evs in
    elim (expired-MayReap timeout a tracker id long h).undriven [
      | inl nobody ↦ no_connections id (run evs start).ledgers (omega (arith, b.clients))
      | inr orphan ↦ b.disowned id (rw orphans at orphan)
    ]
