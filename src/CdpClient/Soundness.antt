-- ===== src/CdpClient/Soundness.antt =====
-- -- What holds of a connection whatever has happened, and one step of one of its calls.
use agent_first_http.Prelude.{
  ℕ, ◌<◌, Text, Bool, true, false, ◌||◌, ◌≡◌, ◌≢◌, refl, sym, ap, ◌∙◌, some, [], inl, inr,
  if◌then◌else◌, ◌==◌, ==_iff, Bool-cases, nat_eq, member, get, get-put, arith, subst,
}
use agent_first_http.Errors.{Result}
use agent_first_http.CdpClient.Requests.{
  remote, Call, numbered, waiting, expired, Requests, no_calls, outcome, Event, begin, enqueue,
  reply, expire, forget, close, receive, change_call, expiring, forgotten, enqueued, is_numbered,
  is_expired, step,
}
use agent_first_http.CdpClient.Steps.{get-change_call, get-drain_replies, own_step, is_close}

-- A call that waits has its slot, calls have numbers that were given out, and after the end there are
-- no slots.
pub record IsSound (s : Requests) : Type 0 where
  pub reached : (id : ℕ) → get id s.calls ≡ some waiting → member id s.replies ≡ true
  pub numbers : (id : ℕ) (c : Call) → get id s.calls ≡ some c → id < s.next_id
  pub ended : s.closed ≡ true → s.replies ≡ []

pub no_calls-IsSound : IsSound no_calls
unfolding no_calls get
no_calls-IsSound = record { reached = λ id e. cc; numbers = λ id c e. cc; ended = λ e. cc }

-- A value that is given to a call which does not wait changes nothing.
pub receive_idle : (v : Result Text) (c : Call) → c ≢ waiting → receive v c ≡ c
receive_idle v waiting h = absurd (h refl)
receive_idle v _ h = refl

pub enqueued_idle : (a b : Bool) (c : Call) → is_numbered (some c) ≡ false → enqueued a b c ≡ c
enqueued_idle a b numbered h = cc
enqueued_idle a b _ h = refl

pub forgotten_idle : (c : Call) → is_expired (some c) ≡ false → forgotten c ≡ c
forgotten_idle expired h = cc
forgotten_idle _ h = refl

module _ (s : Requests) (sound : IsSound s) (id : ℕ) (c : Call)
    (found : get id s.calls ≡ some c) where
  unheard : (v : Result Text) → member id s.replies ≡ false → receive v c ≡ c
  unheard v gone =
      receive_idle v c
        (λ w. let bad : true ≡ false = sym (sound.reached id (found ∙ ap some w)) ∙ gone in cc)

  changed :
      (j : ℕ) (f : Call → Call)
      → get id (change_call j f s.calls) ≡ some (if j == id then f c else c)
  changed j f = rw (get-change_call j id f s.calls) (rw found (ground arith))

  unchanged :
      (j : ℕ) (f : Call → Call)
      → ((j == id) ≡ true → f c ≡ c)
      → get id s.calls ≡ some (if j == id then f c else c)
  unchanged j f keeps = elim (Bool-cases (j == id)) [
    | inl own ↦ rw own (found ∙ ap some (sym (keeps own)))
    | inr foreign ↦ rw foreign found
  ]

  found_at : (j : ℕ) → (j == id) ≡ true → get j s.calls ≡ some c
  found_at j own = subst (λ (k : ℕ). get k s.calls ≡ some c) (sym ((==_iff j id).0 own)) found

  pub step-own : (e : Event) → get id (step s e).calls ≡ some (own_step id s.closed e c)
  unfolding step
  step-own begin = ground (arith, get-put s.next_id id numbered s.calls, sound.numbers id c found)
  step-own (enqueue j writer_open) = elim (Bool-cases (is_numbered (get j s.calls))) [
    | inl now ↦ rw now (changed j (enqueued s.closed writer_open))
    | inr later ↦ rw later (
        unchanged j (enqueued s.closed writer_open) (λ own.
          enqueued_idle s.closed writer_open c (ap is_numbered (sym (found_at j own)) ∙ later)))
  ]
  step-own (reply j r) = elim (Bool-cases (member j s.replies)) [
    | inl heard ↦ rw heard (changed j (receive (outcome r)))
    | inr gone ↦ rw gone (
        unchanged j (receive (outcome r)) (λ own.
          unheard (outcome r)
            (ap (λ (k : ℕ). member k s.replies) (sym ((==_iff j id).0 own)) ∙ gone)))
  ]
  step-own (expire j) = changed j expiring
  step-own (forget j) = elim (Bool-cases (is_expired (get j s.calls))) [
    | inl now ↦ rw now (changed j forgotten)
    | inr later ↦ rw later (
        unchanged j forgotten
          (λ own. forgotten_idle c (ap is_expired (sym (found_at j own)) ∙ later)))
  ]
  step-own close =
      rw (get-drain_replies s.replies id s.calls) (elim (Bool-cases (member id s.replies)) [
        | inl heard ↦ rw (heard, found)
        | inr gone ↦ rw (gone, found) (ap some (sym (unheard (outcome remote) gone)))
      ])

pub step-closed : (s : Requests) (e : Event) → (step s e).closed ≡ (s.closed || is_close e)
unfolding step
step-closed s begin = ground arith
step-closed s (enqueue j w) = ground arith
step-closed s (reply j r) = ground arith
step-closed s (expire j) = ground arith
step-closed s (forget j) = ground arith
step-closed s close = ground arith
