-- ===== src/Network/Snapshots.antt =====
-- sdk/fetch/artifacts/collectors.rs: what is read from the state of `NetworkCollector`.
use agent_first_http.Prelude.{
  ℕ, ◌+◌, ◌-◌, Text, codes, Bool, true, false, not, ◌&&◌, Option, none, some, List, [], ◌∷◌, leb,
  ltb, ◌==◌, if◌then◌else◌, keep, text_keys, get, put,
}
use agent_first_http.Network.Entry.{NetworkEntryState, pending, responded, Hint, NetworkEntry}
use agent_first_http.Network.Collector.{NetworkSlot, NetworkInner, is_id, is_document, hop_count}

abbrev pub is_true_flag : Option Hint → Bool
is_true_flag (some (Hint.flag b)) = b
is_true_flag _ = false

unfoldable pub is_redirect_hop : NetworkEntry → Bool
is_redirect_hop entry = is_true_flag (get (codes "redirected") entry.hints)

-- `matches!(state, Pending | Responded)`
abbrev pub is_unfinished : NetworkEntryState → Bool
is_unfinished pending = true
is_unfinished responded = true
is_unfinished _ = false

unfoldable pub is_main_candidate : Text → NetworkSlot → Bool
unfolding is_redirect_hop
is_main_candidate frame slot =
    is_document slot.entry.resource_type
    && (is_id frame slot.entry.frame_id && not (is_redirect_hop slot.entry))

-- `max_by_key` by the start; of equal ones the last.
unfoldable pub latest : List (Text × NetworkSlot) → Option NetworkSlot
latest [] = none
latest ((_, s) ∷ rest) = elim (latest rest) [
  | none ↦ some s
  | some t ↦
      if ltb t.entry.timing.start_monotonic_ms s.entry.timing.start_monotonic_ms
      then some s
      else some t
]

unfoldable pub select_main_document : Text → NetworkInner → NetworkInner
unfolding is_main_candidate latest
select_main_document main_frame_id inner =
    elim (latest
      (keep (λ (e : Text × NetworkSlot). is_main_candidate main_frame_id e.1) inner.slots)) [
        | none ↦ inner
        | some main ↦ record inner { main_request_id = some main.entry.request_id }
      ]

pub record ObservedRequest : Type 0 where
  pub entry : NetworkEntry
  pub waited : ℕ
  pub idle_for : ℕ

pub record ReadinessNetwork : Type 0 where
  pub requests : List ObservedRequest
  pub complete : Bool

-- Time that has passed at `now`; `elapsed` is zero for an instant in the future.
unfoldable pub observed_requests : ℕ → List (Text × NetworkSlot) → List ObservedRequest
observed_requests now [] = []
observed_requests now ((_, s) ∷ rest) =
    record { entry = s.entry; waited = now - s.started_at; idle_for = now - s.updated_at }
    ∷ observed_requests now rest

unfoldable pub readiness_snapshot : Text → ℕ → NetworkInner → ReadinessNetwork × NetworkInner
unfolding select_main_document observed_requests
readiness_snapshot main_frame_id now inner =
    let selected = select_main_document main_frame_id inner in
    (
      record {
        requests = observed_requests now selected.slots;
        complete = (selected.events_dropped == 0) && not selected.truncated;
      },
      selected,
    )

unfoldable pub pending_by_resource_type : List (Text × NetworkSlot) → List (Text × ℕ)
pending_by_resource_type [] = []
pending_by_resource_type ((_, s) ∷ rest) =
    let others = pending_by_resource_type rest in
    if is_unfinished s.entry.state
    then put s.entry.resource_type (hop_count (get s.entry.resource_type others) + 1) others
    else others

-- `values().sum()`
unfoldable pub total_of : List (Text × ℕ) → ℕ
total_of [] = 0
total_of ((_, n) ∷ rest) = n + total_of rest

pub record NetworkQuietSnapshot : Type 0 where
  pub quiet : Bool
  pub idle_for : ℕ
  pub inflight_total : ℕ
  pub pending_by_type : List (Text × ℕ)

-- `Duration::from_secs(u64::MAX / 2)`, in milliseconds
abbrev pub idle_forever : ℕ
idle_forever = 9223372036854775807000

unfoldable pub idle_since : ℕ → Option ℕ → ℕ
idle_since now none = idle_forever
idle_since now (some last) = now - last

unfoldable pub quiet_snapshot : ℕ → ℕ → NetworkInner → NetworkQuietSnapshot
unfolding pending_by_resource_type total_of idle_since
quiet_snapshot idle now inner =
    let pending_types = pending_by_resource_type inner.slots in
    let inflight_total = total_of pending_types in
    let idle_for = idle_since now inner.last_activity in
    record {
      quiet = (inflight_total == 0) && leb idle idle_for;
      idle_for = idle_for;
      inflight_total = inflight_total;
      pending_by_type = pending_types;
    }

-- `take_finished`
unfoldable pub take_finished : NetworkInner → List Text × NetworkInner
take_finished inner = (inner.finished_ids, record inner { finished_ids = [] })

unfoldable pub main_entry : NetworkInner → Option NetworkSlot
main_entry inner = elim inner.main_request_id [ none ↦ none | some id ↦ get id inner.slots ]
