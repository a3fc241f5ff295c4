-- ===== src/Holdings/Orphans.antt =====
-- What follows for the host: its invariant at every moment, and who becomes an orphan.
use agent_first_http.Prelude.{
  ℕ, ◌≡◌, refl, Text, Bool, true, ◌&&◌, ◌||◌, Option, none, some, List, [], ◌∷◌, ◌==◌,
  if◌then◌else◌, arith, get_elem?, remove_at, keep, member, get, text_keys, length-append,
  member-eq-count, member-append,
}
use agent_first_http.Holdings.Ledger.{TargetLedger, fresh, observe_request, observe_response}
use agent_first_http.Holdings.Holders.{release_all, release_targets, retain_orphaned_targets}
use agent_first_http.Holdings.Connections.{
  Host, Event, connect, request, response, disconnect, seen, start, on_request, on_response,
  on_disconnect, step, run,
}
use agent_first_http.Holdings.Tally.{
  tally, tally-release_all, orphans-release_all, observe_request-Reports, observe_response-Reports,
}
use agent_first_http.Holdings.Accounting.{
  owners, owners-remove_at, owners-append, IsBalanced, noted, noted-IsBalanced, length-remove_at,
  All-remove_at, All-fresh,
}

start-IsBalanced : IsBalanced start
unfolding start owners tally member get
start-IsBalanced = record {
  clients = refl;
  sets = λ t. tt;
  counted = λ t. refl;
  disowned = λ t m. refl;
}

module _ (s : Host) (b : IsBalanced s) where
  on_request-IsBalanced :
      (i : ℕ) (f : _) (o : Option TargetLedger)
      → get_elem? s.ledgers i ≡ o
      → IsBalanced (on_request i f o s)
  unfolding on_request noted
  on_request-IsBalanced i f none e = b
  on_request-IsBalanced i f (some l) e =
      noted-IsBalanced s b i l e (observe_request f l).0 (observe_request f l).1
        (observe_request-Reports f l)

  on_response-IsBalanced :
      (i : ℕ) (f : _) (o : Option TargetLedger)
      → get_elem? s.ledgers i ≡ o
      → IsBalanced (on_response i f o s)
  unfolding on_response noted
  on_response-IsBalanced i f none e = b
  on_response-IsBalanced i f (some l) e =
      noted-IsBalanced s b i l e (observe_response f l).0 (observe_response f l).1
        (observe_response-Reports f l)

  released :
      (i : ℕ) (l : TargetLedger)
      → get_elem? s.ledgers i ≡ some l
      → (t : Text)
      → tally t (release_all l.owned s.holders.target_holders).0 ≡ owners t (remove_at s.ledgers i)
  released i l e t = omega (
    arith,
    tally-release_all t l.owned s.holders.target_holders,
    b.counted t,
    owners-remove_at t s.ledgers i l e,
  )

  -- Who is an orphan after a connection has ended.
  orphans-disconnect :
      (i : ℕ) (l : TargetLedger)
      → get_elem? s.ledgers i ≡ some l
      → (t : Text)
      → member t (release_targets l.owned s.holders).orphaned_targets ≡ (
          (member t l.owned && owners t (remove_at s.ledgers i) == 0)
          || member t s.holders.orphaned_targets)
  unfolding release_targets
  orphans-disconnect i l e t = rw (
    member-append t (release_all l.owned s.holders.target_holders).1 s.holders.orphaned_targets,
    orphans-release_all t l.owned s.holders.target_holders,
    released i l e t,
  )

  on_disconnect-IsBalanced :
      (i : ℕ) (o : Option TargetLedger)
      → get_elem? s.ledgers i ≡ o
      → IsBalanced (on_disconnect i o s)
  unfolding on_disconnect
  on_disconnect-IsBalanced i none e = b
  on_disconnect-IsBalanced i (some l) e = record {
    clients = omega (arith, b.clients, length-remove_at s.ledgers i l e);
    sets = λ t. All-remove_at t s.ledgers i (b.sets t);
    counted = λ t. unfold release_targets in released i l e t;
    disowned = λ t m.
        ground
          (arith, orphans-disconnect i l e t, b.disowned t, owners-remove_at t s.ledgers i l e);
  }

  member-keep :
      (p : Text → Bool) (t : Text) (ts : List Text)
      → member t (keep p ts) ≡ true
      → member t ts ≡ true
  unfolding member keep
  member-keep p t [] m = m
  member-keep p t (x ∷ xs) m = ground (arith, member-keep p t xs)

  -- Every event keeps the accounts right.
  pub step-IsBalanced : (ev : Event) → IsBalanced (step ev s)
  unfolding step retain_orphaned_targets
  step-IsBalanced connect = record {
    clients = omega (arith, b.clients, length-append s.ledgers (fresh ∷ []));
    sets = λ t. All-fresh t s.ledgers (b.sets t);
    counted = λ t. rw owners-append (b.counted t);
    disowned = λ t m. rw owners-append (b.disowned t m);
  }
  step-IsBalanced (request i f) = on_request-IsBalanced i f (get_elem? s.ledgers i) refl
  step-IsBalanced (response i f) = on_response-IsBalanced i f (get_elem? s.ledgers i) refl
  step-IsBalanced (disconnect i) = on_disconnect-IsBalanced i (get_elem? s.ledgers i) refl
  step-IsBalanced (seen live) = record {
    clients = b.clients;
    sets = b.sets;
    counted = b.counted;
    disowned =
        λ t m. b.disowned t (member-keep (λ x. member x live) t s.holders.orphaned_targets m);
  }

run_from-IsBalanced : (evs : List Event) (s : Host) → IsBalanced s → IsBalanced (run evs s)
unfolding run
run_from-IsBalanced [] s b = b
run_from-IsBalanced (ev ∷ evs) s b = run_from-IsBalanced evs (step ev s) (step-IsBalanced s b ev)

-- At every moment of a host's life, whatever frames its connections forwarded and in whatever order
-- they came and went: the client count is the number of live connections, the count of holds on each
-- target is the number of live connections whose ledgers own it, no connection owns a target twice,
-- and no orphaned target is owned by a live connection.
pub run-IsBalanced : (evs : List Event) → IsBalanced (run evs start)
run-IsBalanced evs = run_from-IsBalanced evs start start-IsBalanced

-- When a live connection ends, a target that it owned is an orphan afterwards exactly when no other
-- live connection owns it, and a target that it did not own is an orphan exactly when it was one.
pub disconnect-orphans :
    (evs : List Event) (i : ℕ) (l : TargetLedger)
    → let s = run evs start in
      get_elem? s.ledgers i ≡ some l
      → (t : Text)
      → member t (step (disconnect i) s).holders.orphaned_targets ≡ (
          if member t l.owned
          then owners t (remove_at s.ledgers i) == 0
          else member t s.holders.orphaned_targets)
unfolding step on_disconnect
disconnect-orphans evs i l e t =
    let s : Host = run evs start in
    let b : IsBalanced s = run-IsBalanced evs in
    rw e (
      ground (
        arith,
        orphans-disconnect s b i l e t,
        b.disowned t,
        owners-remove_at t s.ledgers i l e,
        member-eq-count t l.owned,
      ))
