-- ===== src/CdpClient/Ended.antt =====
-- -- The numbers that were given out, and the end of a connection.
use agent_first_http.Prelude.{
  ℕ, ◌<◌, Bool, true, false, ◌≡◌, refl, sym, ap, ◌∙◌, Option, none, some, List, [], ◌∷◌, inl, inr,
  if◌then◌else◌, ◌==◌, ==_iff, Bool-cases, nat_eq, mapped, member, erase, get, get-put, arith,
}
use agent_first_http.CdpClient.Requests.{
  remote, Call, numbered, Requests, outcome, Event, begin, enqueue, reply, expire, forget, close,
  receive, change_call, expiring, forgotten, enqueued, is_numbered, is_expired, enqueue_reply, step,
}
use agent_first_http.CdpClient.Steps.{get-change_call, get-drain_replies}
use agent_first_http.CdpClient.Soundness.{IsSound}

-- A step of one call makes no other.
pub made_before :
    (P : Type 0) (b : Bool) (f : Call → Call) (o : Option Call) (c : Call)
    → ((d : Call) → o ≡ some d → P)
    → (if b then mapped f o else o) ≡ some c
    → P
made_before P true f none c numbers e = cc
made_before P true f (some d) c numbers e = numbers d refl
made_before P false f o c numbers e = numbers c e

pub changed_number :
    (s : Requests) (j id : ℕ) (f : Call → Call) (c : Call)
    → IsSound s
    → get id (change_call j f s.calls) ≡ some c
    → id < s.next_id
changed_number s j id f c h found =
    made_before (id < s.next_id) (j == id) f (get id s.calls) c (λ d e. h.numbers id d e)
      (sym (get-change_call j id f s.calls) ∙ found)

pub step-numbers :
    (s : Requests) (e : Event) (id : ℕ) (c : Call)
    → IsSound s
    → get id (step s e).calls ≡ some c
    → id < (step s e).next_id
unfolding step
step-numbers s begin id c h found = elim (Bool-cases (s.next_id == id)) [
  | inl own ↦ omega (arith, (==_iff s.next_id id).0 own)
  | inr foreign ↦
      let old : get id s.calls ≡ some c =
        sym (ap (λ (b : Bool). if b then some numbered else get id s.calls) foreign)
        ∙ sym (get-put s.next_id id numbered s.calls)
        ∙ found in
      omega (arith, h.numbers id c old)
]
step-numbers s (enqueue j o) id c h found = elim (Bool-cases (is_numbered (get j s.calls))) [
  | inr later ↦ rw later (h.numbers id c (rw (later, step) at found))
  | inl now ↦ rw now (changed_number s j id (enqueued s.closed o) c h (rw (now, step) at found))
]
step-numbers s (reply j r) id c h found = elim (Bool-cases (member j s.replies)) [
  | inr gone ↦ rw gone (h.numbers id c (rw (gone, step) at found))
  | inl heard ↦
      rw heard (changed_number s j id (receive (outcome r)) c h (rw (heard, step) at found))
]
step-numbers s (expire j) id c h found = changed_number s j id expiring c h found
step-numbers s (forget j) id c h found = elim (Bool-cases (is_expired (get j s.calls))) [
  | inr later ↦ rw later (h.numbers id c (rw (later, step) at found))
  | inl now ↦ rw now (changed_number s j id forgotten c h (rw (now, step) at found))
]
step-numbers s close id c h found =
    made_before (id < s.next_id) (member id s.replies) (receive (outcome remote)) (get id s.calls) c
      (λ d e. h.numbers id d e) (sym (get-drain_replies s.replies id s.calls) ∙ found)

pub erased_none : (j : ℕ) (replies : List ℕ) → replies ≡ [] → erase j replies ≡ []
unfolding erase
erased_none j [] h = refl
erased_none j (x ∷ xs) h = cc

pub enqueued_none :
    (closed writer_open : Bool) (j : ℕ) (replies : List ℕ)
    → closed ≡ true
    → replies ≡ []
    → enqueue_reply closed writer_open j replies ≡ []
enqueued_none true o j replies over h = h
enqueued_none false o j replies over h = cc

pub step-ended :
    (s : Requests) (e : Event) → IsSound s → (step s e).closed ≡ true → (step s e).replies ≡ []
unfolding step
step-ended s begin h over = h.ended over
step-ended s (enqueue j o) h over = elim (Bool-cases (is_numbered (get j s.calls))) [
  | inr later ↦ rw later (h.ended (rw (later, step) at over))
  | inl now ↦
      let closed : s.closed ≡ true = rw (now, step) at over in
      rw now (enqueued_none s.closed o j s.replies closed (h.ended closed))
]
step-ended s (reply j r) h over = elim (Bool-cases (member j s.replies)) [
  | inr gone ↦ rw gone (h.ended (rw (gone, step) at over))
  | inl heard ↦ rw heard (erased_none j s.replies (h.ended (rw (heard, step) at over)))
]
step-ended s (expire j) h over = h.ended over
step-ended s (forget j) h over = elim (Bool-cases (is_expired (get j s.calls))) [
  | inr later ↦ rw later (h.ended (rw (later, step) at over))
  | inl now ↦ rw now (erased_none j s.replies (h.ended (rw (now, step) at over)))
]
step-ended s close h over = refl
