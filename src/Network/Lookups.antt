-- ===== src/Network/Lookups.antt =====
-- What the slots of the collector hold after each change, request by request.
use agent_first_http.Prelude.{
  ℕ, Text, codes, Bool, true, false, ◌≡◌, refl, ap, Option, none, some, List, [], ◌∷◌, ◌++◌, inl,
  inr, if◌then◌else◌, Bool-cases, Option-cases, text_eq, text_eq_iff, text_eq_refl, text_keys, get,
  remove, get-put, get-remove, contains_char, arith, to_string, ltb, length, ◌+◌, mapped,
}
use agent_first_http.Pages.Classification.{text_or}
use agent_first_http.Network.Entry.{NetworkEntryState, pending, NetworkEntry, Response, CdpEvent}
use agent_first_http.Network.Collector.{
  network_entry_limit, NetworkSlot, NetworkInner, with_slot, is_id, is_blank, hop_id_of, keep_hop,
  end_hop,
}
use agent_first_http.Network.Events.{admit_request}

abbrev pub state_of : Option NetworkSlot → Option NetworkEntryState
state_of none = none
state_of (some s) = some s.entry.state

-- A change of a status that is known.
abbrev pub becomes : NetworkEntryState → Option NetworkEntryState → Option NetworkEntryState
becomes new none = none
becomes new (some _) = some new

-- An identifier without `#`, as the browser's are.
abbrev pub IsPlain : Text → Type 0
IsPlain id = contains_char id b'#' ≡ false

pub get-with_slot :
    (k j : Text) (f : NetworkSlot → NetworkSlot) (m : List (Text × NetworkSlot))
    → get j (with_slot k f m) ≡ (if text_eq k j then mapped f (get j m) else get j m)
unfolding with_slot
get-with_slot k j f m = elim (Option-cases (get k m)) [
  | inl e ↦ rw (e, with_slot) (ground (arith, text_eq_iff k j))
  | inr (s, e) ↦ rw (e, with_slot) (rw get-put (ground (arith, text_eq_iff k j)))
]

pub contains_char-append :
    (s t : Text) (c : ℕ) → contains_char t c ≡ true → contains_char (s ++ t) c ≡ true
unfolding contains_char
contains_char-append [] t c h = h
contains_char-append (x ∷ s) t c h = ground (arith, contains_char-append s t c h)

pub hop_mark : (n : Text) → contains_char (codes "#redirect" ++ n) b'#' ≡ true
unfolding contains_char
hop_mark n = refl

pub hop_id_of-marked : (req_id : Text) (n : ℕ) → contains_char (hop_id_of req_id n) b'#' ≡ true
unfolding hop_id_of
hop_id_of-marked req_id n = contains_char-append req_id _ b'#' (hop_mark (to_string n))

-- The identifier of a hop is no identifier of the browser's.
pub hop_id_of-ne : (req_id id : Text) (n : ℕ) → IsPlain id → text_eq (hop_id_of req_id n) id ≡ false
hop_id_of-ne req_id id n plain =
    ground (arith, text_eq_iff (hop_id_of req_id n) id, hop_id_of-marked req_id n)

-- Of another request than the one that an event speaks of, the slots say what they did.
module _ (id : Text) (plain : IsPlain id) where
  pub keep_hop-get :
      (redact : Bool) (req : Text) (t : ℕ) (r : Response) (hop : NetworkSlot) (inner : NetworkInner)
      → text_eq req id ≡ false
      → get id (keep_hop redact req t r hop inner).0.slots ≡ get id inner.slots
  unfolding keep_hop
  keep_hop-get redact req t r hop inner other_id =
      elim (Bool-cases (ltb network_entry_limit (length (remove req inner.slots) + 2))) [
        | inl full ↦ rw full (simp (get-remove, other_id))
        | inr room ↦ rw room (simp (get-put, get-remove, hop_id_of-ne req id _ plain, other_id))
      ]

  pub end_hop-get :
      (redact : Bool) (req : Text) (t : ℕ) (r : Option Response) (inner : NetworkInner)
      → text_eq req id ≡ false
      → get id (end_hop redact req t r inner).0.slots ≡ get id inner.slots
  unfolding end_hop
  end_hop-get redact req t none inner other_id = refl
  end_hop-get redact req t (some r) inner other_id = elim (Option-cases (get req inner.slots)) [
    | inl e ↦ rw (e, end_hop)
    | inr (hop, e) ↦ rw (e, end_hop) (keep_hop-get redact req t r hop inner other_id)
  ]

  pub admit_request-get :
      (redact : Bool) (now : ℕ) (ev : CdpEvent) (req : Text) (inner : NetworkInner)
      → text_eq req id ≡ false
      → get id (admit_request redact now ev req inner).slots ≡ get id inner.slots
  unfolding admit_request
  admit_request-get redact now ev req inner other_id =
      simp (get-put, other_id) (end_hop-get redact req _ ev.redirect_response _ other_id)

pub admit_request-get_self :
    (redact : Bool) (now : ℕ) (ev : CdpEvent) (req : Text) (inner : NetworkInner)
    → state_of (get req (admit_request redact now ev req inner).slots) ≡ some pending
unfolding admit_request
admit_request-get_self redact now ev req inner = simp (get-put, text_eq_refl)

pub is_id-text_or :
    (id : Text) (o : Option Text) → is_blank id ≡ false → is_id id o ≡ text_eq (text_or o []) id
unfolding text_eq
is_id-text_or [] none filled = cc
is_id-text_or (c ∷ id) none filled = refl
is_id-text_or id (some req) filled = refl

pub state_of-becomes :
    (b : Bool) (f : NetworkEntry → NetworkEntry) (new : NetworkEntryState) (o : Option NetworkSlot)
    → ((e : NetworkEntry) → (f e).state ≡ new)
    → state_of (if b then mapped (λ s. record s { entry = f s.entry }) o else o)
      ≡ (if b then becomes new (state_of o) else state_of o)
state_of-becomes true f new none sets = refl
state_of-becomes true f new (some s) sets = ap some (sets s.entry)
state_of-becomes false f new o sets = refl

pub state_of-keeps :
    (b : Bool) (f : NetworkSlot → NetworkSlot) (o : Option NetworkSlot)
    → ((s : NetworkSlot) → (f s).entry.state ≡ s.entry.state)
    → state_of (if b then mapped f o else o) ≡ state_of o
state_of-keeps true f none keeps = refl
state_of-keeps true f (some s) keeps = ap some (keeps s)
state_of-keeps false f o keeps = refl

pub if_same {ℓ} : {A : Type ℓ} (b : Bool) (a : A) → (if b then a else a) ≡ a
if_same true a = refl
if_same false a = refl
