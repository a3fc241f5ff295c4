-- ===== src/Holdings/Connections.antt =====
-- host/listener/cdp_proxy.rs: the connections of one host and the events on them, in the order in which
-- the host's locks put them. A connection has a ledger of its own; the holders are shared.
use agent_first_http.Prelude.{
  ℕ, ◌+◌, ◌-◌, Text, Option, none, some, List, [], ◌∷◌, ◌++◌, get_elem?, set, remove_at,
}
use agent_first_http.Holdings.Ledger.{
  Request, Response, Frame, TargetLedger, fresh, observe_request, observe_response,
}
use agent_first_http.Holdings.Holders.{
  Holders, note_holding, release_targets, retain_orphaned_targets,
}

pub record Host : Type 0 where
  pub cdp_clients : ℕ
  pub holders : Holders
  pub ledgers : List TargetLedger

pub data Event : Type 0 where
  connect : Event
  request : ℕ → Frame Request → Event
  response : ℕ → Frame Response → Event
  disconnect : ℕ → Event
  -- the reaper's report of the targets that the browser still has
  seen : List Text → Event

unfoldable pub start : Host
start = record {
  cdp_clients = 0;
  holders = record { target_holders = []; orphaned_targets = [] };
  ledgers = [];
}

-- A text frame from the client: the ledger first, then the host.
unfoldable pub on_request : ℕ → Frame Request → Option TargetLedger → Host → Host
on_request i f none s = s
on_request i f (some l) s =
    let (l', holding) = observe_request f l in
    record s { holders = note_holding holding s.holders; ledgers = set s.ledgers i l' }

unfoldable pub on_response : ℕ → Frame Response → Option TargetLedger → Host → Host
on_response i f none s = s
on_response i f (some l) s =
    let (l', holding) = observe_response f l in
    record s { holders = note_holding holding s.holders; ledgers = set s.ledgers i l' }

-- The end of `forward`: the ledger's targets are released, and the client's guard is dropped.
unfoldable pub on_disconnect : ℕ → Option TargetLedger → Host → Host
on_disconnect i none s = s
on_disconnect i (some l) s = record {
  cdp_clients = s.cdp_clients - 1;
  holders = release_targets l.owned s.holders;
  ledgers = remove_at s.ledgers i;
}

unfoldable pub step : Event → Host → Host
unfolding on_request on_response on_disconnect
step connect s = record s { cdp_clients = s.cdp_clients + 1; ledgers = s.ledgers ++ fresh ∷ [] }
step (request i f) s = on_request i f (get_elem? s.ledgers i) s
step (response i f) s = on_response i f (get_elem? s.ledgers i) s
step (disconnect i) s = on_disconnect i (get_elem? s.ledgers i) s
step (seen live) s = record s { holders = retain_orphaned_targets live s.holders }

unfoldable pub run : List Event → Host → Host
run [] s = s
run (ev ∷ evs) s = run evs (step ev s)
