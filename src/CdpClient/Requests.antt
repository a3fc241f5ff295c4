-- ===== src/CdpClient/Requests.antt =====
-- sdk/cdp/ws_client.rs: the requests of a connection that wait for their replies. Callers, the task that
-- reads, and the timers run side by side: each event is one section under the lock, or one step of a
-- caller outside it.
use agent_first_http.Prelude.{
  ℕ, ◌+◌, Text, Bool, true, false, Option, none, some, List, [], ◌∷◌, if◌then◌else◌, nat_eq, member,
  insert, erase, get, put,
}
use agent_first_http.Errors.{Error, new, cdp_unavailable, cdp_error, cdp_timeout, Result, ok, err}

-- What a caller is told through its `oneshot` channel: the result, or the error that the browser sent.
pub data Reply : Type 0 where
  result : Text → Reply
  remote : Reply

-- Where a call is: it has its number; it waits for a reply; its timer has fired, and its slot is not yet
-- removed; or it has returned.
pub data Call : Type 0 where
  numbered waiting expired : Call
  returned : Result Text → Call

-- `PendingRequests` with the counter of the connection, and the calls that were made.
pub record Requests : Type 0 where
  pub next_id : ℕ
  pub closed : Bool
  pub replies : List ℕ
  pub calls : List (ℕ × Call)

unfoldable pub no_calls : Requests
no_calls = record { next_id = 1; closed = false; replies = []; calls = [] }

-- What `send_inner` makes of the reply.
abbrev pub outcome : Reply → Result Text
outcome (result value) = ok value
outcome remote = err (new cdp_error)

pub data Event : Type 0 where
  -- `next_id.fetch_add(1)`
  begin : Event
  -- The section under the lock; the flag says whether the writer took the message.
  enqueue : ℕ → Bool → Event
  -- A message with an `id` arrives.
  reply : ℕ → Reply → Event
  -- The timer of a call fires, and then its slot is removed.
  expire : ℕ → Event
  forget : ℕ → Event
  -- The reader ends: the socket was closed, or gave an error.
  close : Event

abbrev pub returned_err : Error → Call
returned_err e = returned (err e)

-- The sender gives its value to the call that still waits; otherwise the value is dropped.
abbrev pub receive : Result Text → Call → Call
receive value waiting = returned value
receive value c = c

-- A step of one call, if it was made.
unfoldable pub change_call : ℕ → (Call → Call) → List (ℕ × Call) → List (ℕ × Call)
change_call id f calls = elim (get id calls) [ none ↦ calls | some c ↦ put id (f c) calls ]

-- As `receive`, to each of the calls.
unfoldable pub drain_replies : List ℕ → List (ℕ × Call) → List (ℕ × Call)
unfolding change_call
drain_replies [] calls = calls
drain_replies (id ∷ rest) calls =
    drain_replies rest (change_call id (receive (outcome remote)) calls)

abbrev pub expiring : Call → Call
expiring waiting = expired
expiring c = c

abbrev pub forgotten : Call → Call
forgotten expired = returned_err (new cdp_timeout)
forgotten c = c

-- Only a call that has its number, and nothing more, enters the section that enqueues it.
abbrev pub enqueued : Bool → Bool → Call → Call
enqueued closed writer_open numbered =
    if closed
    then returned_err (new cdp_unavailable)
    else if writer_open
    then waiting
    else returned_err (new cdp_unavailable)
enqueued closed writer_open c = c

abbrev pub is_numbered : Option Call → Bool
is_numbered (some numbered) = true
is_numbered _ = false

abbrev pub is_expired : Option Call → Bool
is_expired (some expired) = true
is_expired _ = false

-- `replies.insert`, and `replies.remove` again if the writer is gone.
abbrev pub enqueue_reply : Bool → Bool → ℕ → List ℕ → List ℕ
enqueue_reply closed writer_open id replies =
    if closed
    then replies
    else if writer_open
    then insert id replies
    else erase id (insert id replies)

unfoldable pub step : Requests → Event → Requests
unfolding change_call drain_replies
step s begin = record s { next_id = s.next_id + 1; calls = put s.next_id numbered s.calls }
step s (enqueue id writer_open) =
    if is_numbered (get id s.calls)
    then record s {
      replies = enqueue_reply s.closed writer_open id s.replies;
      calls = change_call id (enqueued s.closed writer_open) s.calls;
    }
    else s
step s (reply id r) =
    if member id s.replies
    then record s {
      replies = erase id s.replies;
      calls = change_call id (receive (outcome r)) s.calls;
    }
    else s
step s (expire id) = record s { calls = change_call id expiring s.calls }
step s (forget id) =
    if is_expired (get id s.calls)
    then record s { replies = erase id s.replies; calls = change_call id forgotten s.calls }
    else s
step s close = record s { closed = true; replies = []; calls = drain_replies s.replies s.calls }

unfoldable pub run : Requests → List Event → Requests
unfolding step
run s [] = s
run s (e ∷ rest) = run (step s e) rest
