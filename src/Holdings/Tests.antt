-- ===== src/Holdings/Tests.antt =====
-- Connections and their tabs at concrete events.
use agent_first_http.Prelude.{
  ◌≡◌, refl, Text, codes, none, some, List, [], ◌∷◌, if◌then◌else◌, ◌==◌, member, text_keys,
  remove_at, get_elem?, text_eq, insert, erase, get, put, remove, nat_eq,
}
use agent_first_http.Holdings.Ledger.{
  Request, Response, Frame, TargetLedger, observe_request, observe_response, fresh,
}
use agent_first_http.Holdings.Holders.{release_targets, note_holding}
use agent_first_http.Holdings.Connections.{
  Event, connect, request, response, disconnect, start, step, run,
}
use agent_first_http.Holdings.Accounting.{owners, IsBalanced}
use agent_first_http.Holdings.Orphans.{run-IsBalanced, disconnect-orphans}

abbrev tab : Text
tab = codes "T"

abbrev ask_create : Frame Request
ask_create = record {
  len = 60;
  message =
      some (record { method = some (codes "Target.createTarget"); id = some 1; target_id = none });
}

abbrev created : Frame Response
created = record { len = 40; message = some (record { id = some 1; target_id = some tab }) }

abbrev attach : Frame Request
attach = record {
  len = 60;
  message =
      some (record {
        method = some (codes "Target.attachToTarget");
        id = some 1;
        target_id = some tab;
      });
}

-- A fetch creates a tab, a second connection attaches to it and ends.
abbrev shared_tab : List Event
shared_tab =
    connect
    ∷ request 0 ask_create
    ∷ response 0 created
    ∷ connect
    ∷ request 1 attach
    ∷ disconnect 1
    ∷ []

-- Only when the fetch ends too is the tab an orphan.
shared_tab_orphans :
    ((run shared_tab start).holders.orphaned_targets ≡ [])
    × ((step (disconnect 0) (run shared_tab start)).holders.orphaned_targets ≡ tab ∷ [])
unfolding run step start observe_request observe_response fresh note_holding release_targets text_eq
    insert erase get put remove member
shared_tab_orphans = (refl, refl)

run-IsBalanced_example : IsBalanced (run shared_tab start)
run-IsBalanced_example = run-IsBalanced shared_tab

abbrev owner : TargetLedger
owner = record { pending_creates = []; owned = tab ∷ [] }

owner_is_first : get_elem? (run shared_tab start).ledgers 0 ≡ some owner
unfolding run step start observe_request observe_response fresh note_holding release_targets text_eq
    insert erase get put remove member
owner_is_first = refl

disconnect-orphans_example :
    member tab (step (disconnect 0) (run shared_tab start)).holders.orphaned_targets ≡ (
      if member tab owner.owned
      then owners tab (remove_at (run shared_tab start).ledgers 0) == 0
      else member tab (run shared_tab start).holders.orphaned_targets)
disconnect-orphans_example = disconnect-orphans shared_tab 0 owner owner_is_first tab
