-- ===== src/Network/Bounds.antt =====
-- How many requests the collector keeps.
use agent_first_http.Prelude.{
  ℕ, suc, ◌+◌, ◌≤◌, Text, codes, Bool, false, ◌≡◌, Option, none, some, List, [], ◌∷◌, inl, inr,
  Bool-cases, Option-cases, text_keys, get, put, remove, length, ltb, length-remove,
  length-remove_known, length-put, length-put_known, arith, refl,
}
use agent_first_http.Pages.Classification.{text_or}
use agent_first_http.Network.Entry.{
  Response, Method, request_will_be_sent, response_received, loading_finished, loading_failed,
  request_served_from_cache, other, CdpEvent,
}
use agent_first_http.Network.Collector.{
  NetworkSlot, NetworkInner, network_entry_limit, with_slot, touch, stamped, is_id, is_network,
  is_refused, end_hop,
}
use agent_first_http.Network.Events.{
  admit_request, on_request, change_entry, dispatch, Received, event, lagged, receive, collect,
}

length-with_slot :
    (k : Text) (f : NetworkSlot → NetworkSlot) (slots : List (Text × NetworkSlot))
    → length (with_slot k f slots) ≤ length slots
unfolding with_slot
length-with_slot k f slots = elim (Option-cases (get k slots)) [
  | inl e ↦ rw (e, with_slot) (omega arith)
  | inr (s, e) ↦ rw (e, with_slot) (length-put_known k (f s) slots e)
]

length-stamped :
    (now : ℕ) (m : Method) (inner : NetworkInner) (o : Option Text)
    → length (stamped now m inner o) ≤ length inner.slots
unfolding stamped
length-stamped now m inner none = omega arith
length-stamped now m inner (some id) = elim (Bool-cases (is_network m)) [
  | inl b ↦ rw b (length-with_slot id _ inner.slots)
  | inr b ↦ rw b (omega arith)
]

length-remove-put :
    (k j : Text) (s : NetworkSlot) (m : List (Text × NetworkSlot))
    → length (remove k (put j s m)) ≤ suc (length m)
length-remove-put k j s m = omega (arith, length-remove k (put j s m), length-put j s m)

fits : (n m : ℕ) → n ≤ suc m → m + 2 ≤ network_entry_limit → n + 1 ≤ network_entry_limit
fits n m h k = omega arith

room_left : (n : ℕ) → ltb network_entry_limit n ≡ false → n ≤ network_entry_limit
room_left n h = ground arith

-- Where a hop is kept there is room for the new one too.
length-end_hop :
    (redact : Bool) (req : Text) (t : ℕ) (r : Option Response) (inner : NetworkInner)
    {hop : NetworkSlot}
    → get req inner.slots ≡ some hop
    → length inner.slots ≤ network_entry_limit
    → length (remove req (end_hop redact req t r inner).0.slots) + 1 ≤ network_entry_limit
unfolding end_hop
length-end_hop redact req t none inner known h =
    omega (arith, length-remove_known req inner.slots known)
length-end_hop redact req t (some r) inner {hop} known h =
    rw (known, end_hop)
      (elim (Bool-cases (ltb network_entry_limit (length (remove req inner.slots) + 2))) [
        | inl full ↦ rw full (
            omega (
              arith,
              length-remove req (remove req inner.slots),
              length-remove_known req inner.slots known,
            ))
        | inr room ↦
            rw room
              (fits _ _ (length-remove-put req _ _ (remove req inner.slots)) (room_left _ room))
      ])

unknown-end_hop :
    (redact : Bool) (req : Text) (t : ℕ) (r : Option Response) (inner : NetworkInner)
    → get req inner.slots ≡ none
    → (end_hop redact req t r inner).0.slots ≡ inner.slots
unfolding end_hop
unknown-end_hop redact req t none inner e = refl
unknown-end_hop redact req t (some r) inner e = rw (e, end_hop)

below_limit :
    (inner : NetworkInner) (req type_ : Text)
    → get req inner.slots ≡ none
    → is_refused inner req type_ ≡ false
    → length inner.slots + 1 ≤ network_entry_limit
unfolding is_refused
below_limit inner req type_ unknown taken =
    let below = rw (unknown, is_refused) at taken in ground (arith, below)

put_known :
    (k : Text) (s : NetworkSlot) (m : List (Text × NetworkSlot))
    → length (remove k m) + 1 ≤ network_entry_limit
    → length (put k s m) ≤ network_entry_limit
unfolding put
put_known k s m h = omega arith

put_unknown :
    (k : Text) (s : NetworkSlot) (m m' : List (Text × NetworkSlot))
    → m ≡ m'
    → length m' + 1 ≤ network_entry_limit
    → length (put k s m) ≤ network_entry_limit
put_unknown k s m m' same h = rw same (omega (arith, length-put k s m'))

on_request-length :
    (redact : Bool) (now : ℕ) (ev : CdpEvent) (inner : NetworkInner)
    → length inner.slots ≤ network_entry_limit
    → length (on_request redact now ev inner).0.slots ≤ network_entry_limit
unfolding on_request admit_request
on_request-length redact now ev inner h =
    let req = text_or ev.request_id [] in
    elim (Bool-cases (is_refused inner req (text_or ev.type_ (codes "Other")))) [
      | inl refused ↦ rw refused h
      | inr taken ↦ rw taken (elim (Option-cases (get req inner.slots)) [
        | inl unknown ↦
            put_unknown req _ _ inner.slots
              (unknown-end_hop redact req _ ev.redirect_response _ unknown)
              (below_limit inner req _ unknown taken)
        | inr (hop, known) ↦
            put_known req _ _ (length-end_hop redact req _ ev.redirect_response _ known h)
      ])
    ]

dispatch-length :
    (redact : Bool) (now : ℕ) (ev : CdpEvent) (m : Method) (inner : NetworkInner)
    → length inner.slots ≤ network_entry_limit
    → length (dispatch redact now ev m inner).0.slots ≤ network_entry_limit
unfolding dispatch change_entry
dispatch-length redact now ev request_will_be_sent inner h = on_request-length redact now ev inner h
dispatch-length redact now ev response_received inner h =
    omega (arith, length-with_slot (text_or ev.request_id []) _ inner.slots)
dispatch-length redact now ev loading_finished inner h =
    omega (arith, length-with_slot (text_or ev.request_id []) _ inner.slots)
dispatch-length redact now ev loading_failed inner h =
    omega (arith, length-with_slot (text_or ev.request_id []) _ inner.slots)
dispatch-length redact now ev request_served_from_cache inner h =
    omega (arith, length-with_slot (text_or ev.request_id []) _ inner.slots)
dispatch-length redact now ev (other _) inner h = h

receive-length :
    (redact : Bool) (session : Text) (inner : NetworkInner) (r : Received)
    → length inner.slots ≤ network_entry_limit
    → length (receive redact session inner r).slots ≤ network_entry_limit
unfolding receive touch
receive-length redact session inner (event now ev) h =
    elim (Bool-cases (is_id session ev.session_id)) [
      | inl mine ↦ rw mine (
          dispatch-length redact now ev ev.method (touch now ev inner)
            (omega (arith, length-stamped now ev.method inner ev.request_id)))
      | inr foreign ↦ rw foreign h
    ]
receive-length redact session inner (lagged now count) h = h

-- Whatever is received, the collector that starts with at most 4096 requests keeps at most 4096, the
-- hops of redirects included.
pub collect-length :
    (redact : Bool) (session : Text) (events : List Received) (inner : NetworkInner)
    → length inner.slots ≤ network_entry_limit
    → length (collect redact session events inner).slots ≤ network_entry_limit
unfolding collect
collect-length redact session [] inner h = h
collect-length redact session (r ∷ rest) inner h =
    collect-length redact session rest _ (receive-length redact session inner r h)
