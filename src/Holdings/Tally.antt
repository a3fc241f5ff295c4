-- ===== src/Holdings/Tally.antt =====
-- What each call does to the number of holds on a target.
use agent_first_http.Prelude.{
  ℕ, ◌-◌, ◌<◌, ◌≡◌, refl, Text, not, ◌&&◌, ◌||◌, Option, none, some, List, [], ◌∷◌, inl, inr, ltb,
  ◌==◌, if◌then◌else◌, if_intro, codes, Bool-cases, Option-cases, arith, member, count, erase, get,
  text_keys, nat_eq, text_eq, text_eq_iff, member-eq-count, count-insert, count-erase, get-put,
  get-remove,
}
use agent_first_http.Holdings.Ledger.{
  Holding, took, closed, Request, Response, Frame, TargetLedger, close_target, hold_target,
  note_create, observe_method, observe_message, observe_request, is_empty,
  max_inspected_response_bytes, settle, observe_response,
}
use agent_first_http.Holdings.Holders.{or_zero, release, release_all}

-- The number of holds that the host counts on a target.
unfoldable pub tally : Text → List (Text × ℕ) → ℕ
tally t m = or_zero (get t m)

pub tally-release :
    (x t : Text) (m : List (Text × ℕ))
    → tally t (release x m).0 ≡ (if text_eq x t then tally t m - 1 else tally t m)
unfolding tally release
tally-release x t m =
    ground (arith, text_eq_iff x t, get-put x t (or_zero (get x m) - 1) m, get-remove x t m)

pub alone-release : (x : Text) (m : List (Text × ℕ)) → (release x m).1 ≡ not (ltb 1 (tally x m))
unfolding tally release
alone-release x m = ground arith

pub tally-release_all :
    (t : Text) (ts : List Text) (m : List (Text × ℕ))
    → tally t (release_all ts m).0 ≡ tally t m - count t ts
unfolding release_all count
tally-release_all t [] m = omega arith
tally-release_all t (x ∷ ts) m =
    ground (arith, tally-release_all t ts (release x m).0, tally-release x t m)

-- A released target becomes an orphan exactly when no hold is left on it.
pub orphans-release_all :
    (t : Text) (ts : List Text) (m : List (Text × ℕ))
    → member t (release_all ts m).1 ≡ (member t ts && tally t (release_all ts m).0 == 0)
unfolding release_all member
orphans-release_all t [] m = refl
orphans-release_all t (x ∷ ts) m = ground (
  arith,
  orphans-release_all t ts (release x m).0,
  tally-release_all t ts (release x m).0,
  tally-release x t m,
  alone-release x m,
  text_eq_iff x t,
  member-eq-count t ts,
)

-- What a report of the ledger says of the connection's own targets.
abbrev pub Reports : List Text → List Text → Option Holding → Type 0
Reports before after none = (t : Text) → count t after ≡ count t before
Reports before after (some (took x)) =
    (count x before ≡ 0)
    × ((t : Text) → count t after ≡ (if text_eq x t then 1 else count t before))
Reports before after (some (closed x)) =
    (0 < count x before)
    × ((t : Text) → count t after ≡ (if text_eq x t then 0 else count t before))

abbrev pub Reported : TargetLedger → TargetLedger × Option Holding → Type 0
Reported l r = Reports l.owned r.0.owned r.1

close_target-Reports : (t : Option Text) (l : TargetLedger) → Reported l (close_target t l)
unfolding close_target
close_target-Reports none l = λ t. refl
close_target-Reports (some x) l = elim (Bool-cases (member x l.owned)) [
  | inl e ↦ rw e (ground (arith, member-eq-count x l.owned), λ t. count-erase x t l.owned)
  | inr e ↦
      rw e λ t. ground (arith, count-erase x t l.owned, member-eq-count x l.owned, text_eq_iff x t)
]

hold_target-Reports : (t : Option Text) (l : TargetLedger) → Reported l (hold_target t l)
unfolding hold_target
hold_target-Reports none l = λ t. refl
hold_target-Reports (some x) l = elim (Bool-cases (member x l.owned)) [
  | inl e ↦ rw e λ t. ground (arith, count-insert x t l.owned, text_eq_iff x t)
  | inr e ↦ rw e (
    ground (arith, member-eq-count x l.owned),
    λ t. ground (arith, count-insert x t l.owned, member-eq-count x l.owned, text_eq_iff x t),
  )
]

note_create-Reports : (id : Option ℕ) (l : TargetLedger) → Reported l (note_create id l, none)
unfolding note_create
note_create-Reports none l = λ t. refl
note_create-Reports (some id) l = λ t. refl

observe_method-Reports :
    (method : Text) (m : Request) (l : TargetLedger) → Reported l (observe_method method m l)
unfolding observe_method
observe_method-Reports method m l =
    if_intro (Reported l) (text_eq method (codes "Target.createTarget"))
      (λ _. note_create-Reports m.id l)
      (λ _.
        if_intro (Reported l) (text_eq method (codes "Target.closeTarget"))
          (λ _. close_target-Reports m.target_id l)
          (λ _.
            if_intro (Reported l) (text_eq method (codes "Target.attachToTarget"))
              (λ _. hold_target-Reports m.target_id l) (λ _ t. refl)))

observe_message-Reports :
    (method : Option Text) (m : Request) (l : TargetLedger)
    → Reported l (observe_message method m l)
unfolding observe_message
observe_message-Reports none m l = λ t. refl
observe_message-Reports (some method) m l = observe_method-Reports method m l

settle-Reports :
    (id : Option ℕ) (target : Option Text) (l : TargetLedger) → Reported l (settle id target l)
unfolding settle
settle-Reports none target l = λ t. refl
settle-Reports (some id) target l =
    if_intro (Reported l) (member id l.pending_creates)
      (λ _. hold_target-Reports target (record l { pending_creates = erase id l.pending_creates }))
      (λ _ t. refl)

pub observe_request-Reports :
    (f : Frame Request) (l : TargetLedger) → Reported l (observe_request f l)
unfolding observe_request
observe_request-Reports f l = elim (Option-cases f.message) [
  | inl e ↦ rw e λ t. refl
  | inr e ↦ rw e.1 (observe_message-Reports (e.0).method e.0 l)
]

pub observe_response-Reports :
    (f : Frame Response) (l : TargetLedger) → Reported l (observe_response f l)
unfolding observe_response
observe_response-Reports f l = elim (Option-cases f.message) [
  | inl e ↦ rw e (
      if_intro (Reported l) (is_empty l.pending_creates || ltb max_inspected_response_bytes f.len)
        (λ _ t. refl) (λ _ t. refl))
  | inr e ↦ rw e.1 (
      if_intro (Reported l) (is_empty l.pending_creates || ltb max_inspected_response_bytes f.len)
        (λ _ t. refl) (λ _. settle-Reports (e.0).id (e.0).target_id l))
]
