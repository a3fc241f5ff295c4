-- ===== src/Holdings/Accounting.antt =====
-- The shared count of holds agrees with the connections' ledgers, and no orphan has a live holder,
-- whatever frames are forwarded and in whatever order connections come and go.
use agent_first_http.Prelude.{
  ℕ, zero, suc, ◌+◌, ◌≤◌, ◌≡◌, refl, ap, Text, true, Option, none, some, List, [], ◌∷◌, ◌++◌,
  if◌then◌else◌, arith, All, length, get_elem?, set, remove_at, member, count, text_keys, text_eq,
  text_eq_iff, member-erase, get-put, get,
}
use agent_first_http.Holdings.Ledger.{Holding, took, closed, TargetLedger, fresh}
use agent_first_http.Holdings.Holders.{Holders, or_zero, note_holding}
use agent_first_http.Holdings.Connections.{Host}
use agent_first_http.Holdings.Tally.{tally, tally-release, Reports}

-- The number of live connections whose ledgers own a target.
unfoldable pub owners : Text → List TargetLedger → ℕ
owners t [] = 0
owners t (l ∷ ls) = count t l.owned + owners t ls

pub owners-set :
    (t : Text) (ls : List TargetLedger) (i : ℕ) (l l' : TargetLedger)
    → get_elem? ls i ≡ some l
    → owners t (set ls i l') + count t l.owned ≡ owners t ls + count t l'.owned
unfolding owners
owners-set t [] i l l' h = absurd (ground arith)
owners-set t (x ∷ xs) zero l l' h = ground arith
owners-set t (x ∷ xs) (suc i) l l' h = omega (arith, owners-set t xs i l l' h)

pub owners-remove_at :
    (t : Text) (ls : List TargetLedger) (i : ℕ) (l : TargetLedger)
    → get_elem? ls i ≡ some l
    → owners t (remove_at ls i) + count t l.owned ≡ owners t ls
unfolding owners
owners-remove_at t [] i l h = absurd (ground arith)
owners-remove_at t (x ∷ xs) zero l h = ground arith
owners-remove_at t (x ∷ xs) (suc i) l h = omega (arith, owners-remove_at t xs i l h)

pub owners-append : (t : Text) (ls : List TargetLedger) → owners t (ls ++ fresh ∷ []) ≡ owners t ls
unfolding owners fresh count
owners-append t [] = omega arith
owners-append t (l ∷ ls) = omega (arith, owners-append t ls)

-- Each ledger is a set.
abbrev pub IsSets : List TargetLedger → Type 0
IsSets ls = (t : Text) → All (λ l. count t l.owned ≤ 1) ls

module _ (t : Text) where
  at_most_once :
      (ls : List TargetLedger) (i : ℕ) (l : TargetLedger)
      → get_elem? ls i ≡ some l
      → All (λ l. count t l.owned ≤ 1) ls
      → count t l.owned ≤ 1
  at_most_once [] i l h a = absurd (ground arith)
  at_most_once (x ∷ xs) zero l h a = ground arith
  at_most_once (x ∷ xs) (suc i) l h a = at_most_once xs i l h a.1

  All-set :
      (ls : List TargetLedger) (i : ℕ) (l' : TargetLedger)
      → count t l'.owned ≤ 1
      → All (λ l. count t l.owned ≤ 1) ls
      → All (λ l. count t l.owned ≤ 1) (set ls i l')
  All-set [] i l' h a = tt
  All-set (x ∷ xs) zero l' h a = (h, a.1)
  All-set (x ∷ xs) (suc i) l' h a = (a.0, All-set xs i l' h a.1)

  pub All-remove_at :
      (ls : List TargetLedger) (i : ℕ)
      → All (λ l. count t l.owned ≤ 1) ls
      → All (λ l. count t l.owned ≤ 1) (remove_at ls i)
  All-remove_at [] i a = tt
  All-remove_at (x ∷ xs) zero a = a.1
  All-remove_at (x ∷ xs) (suc i) a = (a.0, All-remove_at xs i a.1)

  pub All-fresh :
      (ls : List TargetLedger)
      → All (λ l. count t l.owned ≤ 1) ls
      → All (λ l. count t l.owned ≤ 1) (ls ++ fresh ∷ [])
  unfolding fresh count
  All-fresh [] a = (omega arith, tt)
  All-fresh (x ∷ xs) a = (a.0, All-fresh xs a.1)

length-set : (ls : List TargetLedger) (i : ℕ) (l' : TargetLedger) → length (set ls i l') ≡ length ls
length-set [] i l' = refl
length-set (x ∷ xs) zero l' = refl
length-set (x ∷ xs) (suc i) l' = ap suc (length-set xs i l')

pub length-remove_at :
    (ls : List TargetLedger) (i : ℕ) (l : TargetLedger)
    → get_elem? ls i ≡ some l
    → suc (length (remove_at ls i)) ≡ length ls
length-remove_at [] i l h = absurd (ground arith)
length-remove_at (x ∷ xs) zero l h = refl
length-remove_at (x ∷ xs) (suc i) l h = ap suc (length-remove_at xs i l h)

pub record IsBalanced (s : Host) : Type 0 where
  pub clients : s.cdp_clients ≡ length s.ledgers
  pub sets : IsSets s.ledgers
  pub counted : (t : Text) → tally t s.holders.target_holders ≡ owners t s.ledgers
  pub disowned : (t : Text) → member t s.holders.orphaned_targets ≡ true → owners t s.ledgers ≡ 0

tally-took :
    (x t : Text) (h : Holders)
    → tally t (note_holding (some (took x)) h).target_holders
      ≡ (if text_eq x t then tally t h.target_holders + 1 else tally t h.target_holders)
unfolding tally note_holding
tally-took x t h =
    ground
      (arith, get-put x t (or_zero (get x h.target_holders) + 1) h.target_holders, text_eq_iff x t)

-- One report, noted by the host beside the ledger that made it.
module _ (s : Host) (b : IsBalanced s) (i : ℕ) (l : TargetLedger)
    (at_i : get_elem? s.ledgers i ≡ some l) (l' : TargetLedger) where
  unfoldable pub noted : Option Holding → Host
  noted h = record s { holders = note_holding h s.holders; ledgers = set s.ledgers i l' }

  once_after : (h : Option Holding) → Reports l.owned l'.owned h → (t : Text) → count t l'.owned ≤ 1
  once_after none r t = omega (arith, r t, at_most_once t s.ledgers i l at_i (b.sets t))
  once_after (some (took x)) r t =
      ground (arith, r.1 t, at_most_once t s.ledgers i l at_i (b.sets t))
  once_after (some (closed x)) r t =
      ground (arith, r.1 t, at_most_once t s.ledgers i l at_i (b.sets t))

  counted_after :
      (h : Option Holding)
      → Reports l.owned l'.owned h
      → (t : Text)
      → tally t (note_holding h s.holders).target_holders ≡ owners t (set s.ledgers i l')
  unfolding note_holding
  counted_after none r t = omega (arith, r t, b.counted t, owners-set t s.ledgers i l l' at_i)
  counted_after (some (took x)) r t = ground (
    arith,
    r.0,
    r.1 t,
    b.counted t,
    owners-set t s.ledgers i l l' at_i,
    tally-took x t s.holders,
    text_eq_iff x t,
  )
  counted_after (some (closed x)) r t = ground (
    arith,
    r.0,
    r.1 t,
    b.counted t,
    owners-set t s.ledgers i l l' at_i,
    at_most_once t s.ledgers i l at_i (b.sets t),
    tally-release x t s.holders.target_holders,
    text_eq_iff x t,
  )

  disowned_after :
      (h : Option Holding)
      → Reports l.owned l'.owned h
      → (t : Text) → member t (note_holding h s.holders).orphaned_targets ≡ true
      → owners t (set s.ledgers i l') ≡ 0
  unfolding note_holding
  disowned_after none r t m = omega (arith, r t, b.disowned t m, owners-set t s.ledgers i l l' at_i)
  disowned_after (some (took x)) r t m = ground (
    arith,
    r.1 t,
    b.disowned t,
    owners-set t s.ledgers i l l' at_i,
    member-erase x t s.holders.orphaned_targets,
  )
  disowned_after (some (closed x)) r t m =
      ground (arith, r.1 t, b.disowned t, owners-set t s.ledgers i l l' at_i)

  pub noted-IsBalanced : (h : Option Holding) → Reports l.owned l'.owned h → IsBalanced (noted h)
  unfolding noted
  noted-IsBalanced h r = record {
    clients = rw length-set b.clients;
    sets = λ t. All-set t s.ledgers i l' (once_after h r t) (b.sets t);
    counted = counted_after h r;
    disowned = disowned_after h r;
  }
