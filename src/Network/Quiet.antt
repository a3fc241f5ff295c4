-- ===== src/Network/Quiet.antt =====
-- When the network counts as quiet.
use agent_first_http.Prelude.{
  ℕ, ◌+◌, ◌≤◌, Text, Bool, true, false, ◌≡◌, ◌↔◌, refl, Option, none, some, List, [], ◌∷◌, inl, inr,
  if◌then◌else◌, Option-cases, text_keys, get, put, All, get-All, arith, subst,
}
use agent_first_http.Network.Entry.{NetworkEntryState}
use agent_first_http.Network.Collector.{NetworkSlot, NetworkInner, no_requests, is_blank}
use agent_first_http.Network.Events.{Received, collect}
use agent_first_http.Network.Snapshots.{
  is_unfinished, pending_by_resource_type, total_of, idle_since, quiet_snapshot,
}
use agent_first_http.Network.Lookups.{state_of, IsPlain}
use agent_first_http.Network.Statuses.{status_after, collect-status_after}

-- The request of a slot has ended.
abbrev pub IsEnded : NetworkSlot → Type 0
IsEnded s = is_unfinished s.entry.state ≡ false

abbrev pub AllEnded : List (Text × NetworkSlot) → Type 0
AllEnded slots = All (λ (e : Text × NetworkSlot). IsEnded e.1) slots

total_of-put : (k : Text) (n : ℕ) (m : List (Text × ℕ)) → n ≤ total_of (put k n m)
unfolding total_of put
total_of-put k n m = omega arith

total_of-count_iff :
    (b : Bool) (k : Text) (n : ℕ) (others : List (Text × ℕ))
    → (total_of (if b then put k (n + 1) others else others) ≡ 0)
      ↔ ((b ≡ false) × (total_of others ≡ 0))
total_of-count_iff true k n others =
    (λ z. absurd (omega (arith, total_of-put k (n + 1) others)), λ h. cc (h.0))
total_of-count_iff false k n others = (λ z. (refl, z), λ h. h.1)

pub total_of-pending_iff :
    (slots : List (Text × NetworkSlot))
    → (total_of (pending_by_resource_type slots) ≡ 0) ↔ AllEnded slots
unfolding pending_by_resource_type
total_of-pending_iff [] = (λ _. tt, λ _. unfold total_of in refl)
total_of-pending_iff ((k, s) ∷ rest) =
    let head = total_of-count_iff (is_unfinished s.entry.state) s.entry.resource_type _ _ in
    let tail = total_of-pending_iff rest in
    (λ z. let (e, r) = head.0 z in (e, tail.0 r), λ h. head.1 (h.0, tail.1 h.1))

-- The network is quiet exactly if every request that is kept has ended, and the last activity is at
-- least `idle` ago (or there was none).
pub quiet_snapshot_iff :
    (idle now : ℕ) (inner : NetworkInner)
    → ((quiet_snapshot idle now inner).quiet ≡ true)
      ↔ (AllEnded inner.slots × (idle ≤ idle_since now inner.last_activity))
unfolding quiet_snapshot
quiet_snapshot_iff idle now inner =
    let e = total_of-pending_iff inner.slots in
    (λ h. (e.0 (ground arith), ground arith), λ h. let z = e.1 h.0 in ground arith)

-- What a request may be when the network is quiet: never sent, finished or failed.
abbrev pub IsOver : Option NetworkEntryState → Type 0
IsOver none = Unit
IsOver (some state) = is_unfinished state ≡ false

IsOver-state_of :
    (id : Text) (slots : List (Text × NetworkSlot))
    → AllEnded slots
    → IsOver (state_of (get id slots))
IsOver-state_of id slots ended = elim (Option-cases (get id slots)) [
  | inl e ↦ rw e tt
  | inr (s, e) ↦ rw e (get-All IsEnded id slots ended e)
]

-- Of a quiet network of which nothing was left out, no request of the session, whatever its order of
-- events, is under way: by the events that were received it was never sent, or finished or failed.
pub collect-quiet :
    (redact : Bool) (session id : Text) (events : List Received) (idle now : ℕ)
    → IsPlain id
    → is_blank id ≡ false
    → (collect redact session events no_requests).truncated ≡ false
    → (quiet_snapshot idle now (collect redact session events no_requests)).quiet ≡ true
    → IsOver (status_after session id events none)
collect-quiet redact session id events idle now plain filled whole quiet =
    subst IsOver (collect-status_after redact session id events plain filled whole)
      (IsOver-state_of id _ ((quiet_snapshot_iff idle now _).0 quiet).0)
