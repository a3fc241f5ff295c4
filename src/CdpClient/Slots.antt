-- ===== src/CdpClient/Slots.antt =====
-- -- A call that waits for its reply has a slot among the replies.
use agent_first_http.Prelude.{
  ℕ, Text, Bool, true, false, ◌≡◌, ◌≢◌, refl, sym, ap, ◌∙◌, Option, none, some, List, inl, inr,
  if◌then◌else◌, ◌==◌, ==_iff, Bool-cases, nat_eq, mapped, member, insert, erase, get, get-put,
  member-insert, member-erase, arith, subst, ◌⊎◌,
}
use agent_first_http.Errors.{Result}
use agent_first_http.CdpClient.Requests.{
  remote, Call, numbered, waiting, expired, Requests, outcome, Event, begin, enqueue, reply, expire,
  forget, close, receive, expiring, forgotten, enqueued, is_numbered, is_expired, enqueue_reply,
  step,
}
use agent_first_http.CdpClient.Steps.{get-change_call, get-drain_replies}
use agent_first_http.CdpClient.Soundness.{IsSound}

pub begun_waits :
    (b : Bool) (o : Option Call)
    → (if b then some numbered else o) ≡ some waiting
    → o ≡ some waiting
begun_waits true o e = cc
begun_waits false o e = e

pub receive_waits :
    (v : Result Text) (b : Bool) (o : Option Call)
    → (if b then mapped (receive v) o else o) ≡ some waiting
    → (b ≡ false) × (o ≡ some waiting)
receive_waits v true none e = cc
receive_waits v true (some waiting) e = cc
receive_waits v true (some _) e = cc
receive_waits v false o e = (refl, e)

pub expiring_waits :
    (b : Bool) (o : Option Call)
    → (if b then mapped expiring o else o) ≡ some waiting
    → (b ≡ false) × (o ≡ some waiting)
expiring_waits true none e = cc
expiring_waits true (some waiting) e = cc
expiring_waits true (some _) e = cc
expiring_waits false o e = (refl, e)

pub enqueued_waits :
    (closed writer_open b : Bool) (o : Option Call)
    → (if b then mapped (enqueued closed writer_open) o else o) ≡ some waiting
    → (o ≡ some waiting) ⊎ (b ≡ true) × (closed ≡ false) × (writer_open ≡ true)
enqueued_waits closed w false o e = inl e
enqueued_waits closed w true none e = cc
enqueued_waits true w true (some numbered) e = cc
enqueued_waits false true true (some numbered) e = inr (refl, refl, refl)
enqueued_waits false false true (some numbered) e = cc
enqueued_waits closed w true (some _) e = inl e

-- A slot that is taken away is not that of another call.
pub kept_slot :
    (s : Requests) (j id : ℕ)
    → IsSound s
    → ((j == id) ≡ false) × (get id s.calls ≡ some waiting)
    → member id (erase j s.replies) ≡ true
kept_slot s j id h (foreign, waits) =
    rw (member-erase j id s.replies) (rw (foreign, h.reached id waits) refl)

pub forgotten_waits :
    (b : Bool) (o : Option Call)
    → (b ≡ true → is_expired o ≡ true)
    → (if b then mapped forgotten o else o) ≡ some waiting
    → (b ≡ false) × (o ≡ some waiting)
forgotten_waits false o now e = (refl, e)
forgotten_waits true none now e = cc
forgotten_waits true (some expired) now e = cc
forgotten_waits true (some waiting) now e = let bad : false ≡ true = now refl in cc
forgotten_waits true (some _) now e = cc

pub numbered_idle : (o : Option Call) → is_numbered o ≡ true → o ≢ some waiting
numbered_idle (some waiting) h e = cc
numbered_idle (some numbered) h e = cc
numbered_idle none h e = cc
numbered_idle (some _) h e = cc

pub number_of :
    (s : Requests) (j id : ℕ)
    → is_numbered (get j s.calls) ≡ true
    → (j == id) ≡ true
    → is_numbered (get id s.calls) ≡ true
number_of s j id now own =
    subst (λ (k : ℕ). is_numbered (get k s.calls) ≡ true) ((==_iff j id).0 own) now

-- Another call's slot stays when one is made.
pub enqueue_keeps :
    (closed writer_open : Bool) (j id : ℕ) (replies : List ℕ)
    → member id replies ≡ true
    → (j == id) ≢ true
    → member id (enqueue_reply closed writer_open j replies) ≡ true
enqueue_keeps true o j id replies known foreign = known
enqueue_keeps false true j id replies known foreign = ground (arith, member-insert j id replies)
enqueue_keeps false false j id replies known foreign =
    ground (arith, member-insert j id replies, member-erase j id (insert j replies))

pub step-reached :
    (s : Requests) (e : Event) (id : ℕ)
    → IsSound s
    → get id (step s e).calls ≡ some waiting
    → member id (step s e).replies ≡ true
unfolding step
step-reached s begin id h w =
    h.reached id (begun_waits _ _ (sym (get-put s.next_id id numbered s.calls) ∙ w))
step-reached s (enqueue j o) id h w = elim (Bool-cases (is_numbered (get j s.calls))) [
  | inr later ↦ rw later (h.reached id (rw (later, step) at w))
  | inl now ↦
      rw now
        (elim (enqueued_waits s.closed o (j == id) (get id s.calls)
          (sym (get-change_call j id (enqueued s.closed o) s.calls) ∙ rw (now, step) at w)) [
            | inl old ↦
                enqueue_keeps s.closed o j id s.replies (h.reached id old)
                  (λ own. numbered_idle (get id s.calls) (number_of s j id now own) old)
            | inr (own, running, writer) ↦
                rw (running, writer) (rw (member-insert j id s.replies) (rw own refl))
          ])
]
step-reached s (reply j r) id h w = elim (Bool-cases (member j s.replies)) [
  | inr gone ↦ rw gone (h.reached id (rw (gone, step) at w))
  | inl heard ↦ rw heard (
      kept_slot s j id h (
        receive_waits (outcome r) (j == id) (get id s.calls)
          (sym (get-change_call j id (receive (outcome r)) s.calls) ∙ rw (heard, step) at w)))
]
step-reached s (expire j) id h w =
    h.reached id
      (expiring_waits (j == id) (get id s.calls)
        (sym (get-change_call j id expiring s.calls) ∙ w)).1
step-reached s (forget j) id h w = elim (Bool-cases (is_expired (get j s.calls))) [
  | inr later ↦ rw later (h.reached id (rw (later, step) at w))
  | inl now ↦ rw now (
      kept_slot s j id h (
        forgotten_waits (j == id) (get id s.calls)
          (λ own. ap is_expired (ap (λ (k : ℕ). get k s.calls) (sym ((==_iff j id).0 own))) ∙ now)
          (sym (get-change_call j id forgotten s.calls) ∙ rw (now, step) at w)))
]
step-reached s close id h w =
    let (gone, old) =
      receive_waits (outcome remote) (member id s.replies) (get id s.calls)
        (sym (get-drain_replies s.replies id s.calls) ∙ w) in
    let bad : true ≡ false = sym (h.reached id old) ∙ gone in cc
