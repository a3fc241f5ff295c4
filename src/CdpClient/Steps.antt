-- ===== src/CdpClient/Steps.antt =====
-- One step of one call of the connection, whatever the others do.
use agent_first_http.Prelude.{
  ℕ, Text, Bool, true, false, ◌||◌, ◌≡◌, refl, ap, ◌∙◌, Option, none, some, List, [], ◌∷◌, inl, inr,
  if◌then◌else◌, ◌==◌, ==_iff, Option-cases, nat_eq, mapped, member, get, get-put, arith,
}
use agent_first_http.Errors.{Result}
use agent_first_http.CdpClient.Requests.{
  remote, Call, waiting, outcome, Event, begin, enqueue, reply, expire, forget, close, receive,
  change_call, drain_replies, expiring, forgotten, enqueued,
}

pub get-change_call :
    (k j : ℕ) (f : Call → Call) (calls : List (ℕ × Call))
    → get j (change_call k f calls) ≡ (if k == j then mapped f (get j calls) else get j calls)
unfolding change_call
get-change_call k j f calls = elim (Option-cases (get k calls)) [
  | inl e ↦ rw (e, change_call) (ground (arith, ==_iff k j))
  | inr (c, e) ↦ rw (e, change_call) (rw get-put (ground (arith, ==_iff k j)))
]

pub receive_twice :
    (v : Result Text) (o : Option Call)
    → mapped (receive v) (mapped (receive v) o) ≡ mapped (receive v) o
receive_twice v none = refl
receive_twice v (some waiting) = refl
receive_twice v (some _) = refl

pub drained :
    (v : Result Text) (a b : Bool) (o : Option Call)
    → (if b
        then mapped (receive v) (if a then mapped (receive v) o else o)
        else (if a then mapped (receive v) o else o))
      ≡ (if a || b then mapped (receive v) o else o)
drained v true true o = receive_twice v o
drained v true false o = refl
drained v false b o = refl

pub get-drain_replies :
    (ids : List ℕ) (j : ℕ) (calls : List (ℕ × Call))
    → get j (drain_replies ids calls)
      ≡ (if member j ids then mapped (receive (outcome remote)) (get j calls) else get j calls)
unfolding drain_replies member
get-drain_replies [] j calls = refl
get-drain_replies (id ∷ rest) j calls =
    let first = get-change_call id j (receive (outcome remote)) calls in
    get-drain_replies rest j _
    ∙ ap (λ (o : Option Call). if member j rest then mapped (receive (outcome remote)) o else o)
        first
    ∙ drained (outcome remote) (id == j) (member j rest) (get j calls)

-- The steps of one call: it minds the events that name it, and the end of the connection.
abbrev pub own_step : ℕ → Bool → Event → Call → Call
own_step id closed begin c = c
own_step id closed (enqueue j writer_open) c = if j == id then enqueued closed writer_open c else c
own_step id closed (reply j r) c = if j == id then receive (outcome r) c else c
own_step id closed (expire j) c = if j == id then expiring c else c
own_step id closed (forget j) c = if j == id then forgotten c else c
own_step id closed close c = receive (outcome remote) c

abbrev pub is_close : Event → Bool
is_close close = true
is_close _ = false

abbrev pub call_after : ℕ → Bool → List Event → Call → Call
call_after id closed [] c = c
call_after id closed (e ∷ rest) c =
    call_after id (closed || is_close e) rest (own_step id closed e c)
