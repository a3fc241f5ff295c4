-- ===== src/Holdings/Ledger.antt =====
-- host/listener/target_ledger.rs: what one `/cdp` connection does to the browser's page targets, read
-- off the frames that it forwards (`TargetLedger`).
use agent_first_http.Prelude.{
  ℕ, Text, codes, Bool, true, false, ◌||◌, Option, none, some, List, [], ltb, if◌then◌else◌,
  text_eq, member, insert, erase, nat_eq, text_keys,
}

-- What the JSON parser and the accessors find in a frame on its way to the browser.
pub record Request : Type 0 where
  pub method : Option Text
  pub id : Option ℕ
  pub target_id : Option Text

-- The same of a frame on its way back.
pub record Response : Type 0 where
  pub id : Option ℕ
  pub target_id : Option Text

-- A frame: its length in bytes, and what it parses to, if it is JSON.
pub record Frame (M : Type 0) : Type 0 where
  pub len : ℕ
  pub message : Option M

pub data Holding : Type 0 where
  took : Text → Holding
  closed : Text → Holding

-- Both fields are sets.
pub record TargetLedger : Type 0 where
  pub pending_creates : List ℕ
  pub owned : List Text

abbrev pub max_inspected_response_bytes : ℕ
max_inspected_response_bytes = 16384

-- `TargetLedger::default()`
unfoldable pub fresh : TargetLedger
fresh = record { pending_creates = []; owned = [] }

unfoldable pub note_create : Option ℕ → TargetLedger → TargetLedger
note_create none l = l
note_create (some id) l = record l { pending_creates = insert id l.pending_creates }

unfoldable pub close_target : Option Text → TargetLedger → TargetLedger × Option Holding
close_target none l = (l, none)
close_target (some t) l =
    (record l { owned = erase t l.owned }, if member t l.owned then some (closed t) else none)

unfoldable pub hold_target : Option Text → TargetLedger → TargetLedger × Option Holding
hold_target none l = (l, none)
hold_target (some t) l =
    (record l { owned = insert t l.owned }, if member t l.owned then none else some (took t))

-- The `match` on the method.
unfoldable pub observe_method : Text → Request → TargetLedger → TargetLedger × Option Holding
unfolding note_create close_target hold_target
observe_method method m l =
    if text_eq method (codes "Target.createTarget")
    then (note_create m.id l, none)
    else if text_eq method (codes "Target.closeTarget")
    then close_target m.target_id l
    else if text_eq method (codes "Target.attachToTarget")
    then hold_target m.target_id l
    else (l, none)

unfoldable pub observe_message :
    Option Text → Request → TargetLedger → TargetLedger × Option Holding
unfolding observe_method
observe_message none m l = (l, none)
observe_message (some method) m l = observe_method method m l

unfoldable pub observe_request : Frame Request → TargetLedger → TargetLedger × Option Holding
unfolding observe_message
observe_request frame l = elim frame.message [
  | none ↦ (l, none)
  | some m ↦ observe_message m.method m l
]

abbrev pub is_empty : List ℕ → Bool
is_empty [] = true
is_empty _ = false

-- The reply with an id: it settles the request of that id, if there is one.
unfoldable pub settle : Option ℕ → Option Text → TargetLedger → TargetLedger × Option Holding
unfolding hold_target
settle none target l = (l, none)
settle (some id) target l =
    if member id l.pending_creates
    then hold_target target (record l { pending_creates = erase id l.pending_creates })
    else (l, none)

unfoldable pub observe_response : Frame Response → TargetLedger → TargetLedger × Option Holding
unfolding settle
observe_response frame l =
    if is_empty l.pending_creates || ltb max_inspected_response_bytes frame.len
    then (l, none)
    else elim frame.message [ none ↦ (l, none) | some m ↦ settle m.id m.target_id l ]
