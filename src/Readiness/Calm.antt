-- ===== src/Readiness/Calm.antt =====
-- What a sample says that counts towards the end of a wait.
use agent_first_http.Prelude.{
  ℕ, ◌≤◌, Text, Bool, true, false, not, ◌&&◌, ◌||◌, ◌≡◌, refl, ◌⊎◌, inl, inr, Option, none, some,
  List, [], ◌∷◌, ltb, if◌then◌else◌, Bool-cases, any, All, arith,
}
use agent_first_http.Network.Snapshots.{ObservedRequest, is_unfinished}
use agent_first_http.Request.Options.{is_nil}
use agent_first_http.Readiness.Frames.{
  ReadinessState, Frame, Metrics, ScopedFrame, Observation, ready, incomplete,
}
use agent_first_http.Readiness.Tally.{
  is_ancillary, is_target, is_ready, is_finished, scope_of, speaks_for_main, Tally, count_request,
  count_requests, is_failed_document,
}
use agent_first_http.Readiness.Assess.{
  Measured, measure_frames, tally_of, may_be_eligible, assess, add_metrics,
}

-- Some item of a list.
abbrev pub Some {ℓ} : {A : Type ℓ} → (A → Type 0) → List A → Type 0
Some P [] = ⊥
Some P (x ∷ xs) = P x ⊎ Some P xs

rest_of :
    (q a u : Bool) (age idle_for : ℕ)
    → (q && not (not a && (u || ltb age idle_for))) ≡ true
    → (q ≡ true) × ((a ≡ true) ⊎ (u ≡ false) × (idle_for ≤ age))
rest_of true true u age idle_for h = (refl, inl refl)
rest_of true false false age idle_for h = (refl, inr (refl, ground arith))
rest_of _ _ _ age idle_for h = cc

main_of :
    (b f : Bool) (old : ReadinessState)
    → is_ready (if b then (if f then ready else incomplete) else old) ≡ true
    → (is_ready old ≡ true) ⊎ (b ≡ true) × (f ≡ true)
main_of true true old h = inr (refl, refl)
main_of true false old h = cc
main_of false f old h = inl h

module _ (root : Frame) (frames : List ScopedFrame) (strict : Bool) (idle_for : ℕ) where
  -- A request that the wait need not mind: an ancillary one, or one that has ended and been idle.
  abbrev pub IsAtRest : ObservedRequest → Type 0
  IsAtRest r =
      (is_ancillary (scope_of root frames r.entry) ≡ true)
      ⊎ (is_unfinished r.entry.state ≡ false) × (idle_for ≤ r.idle_for)

  -- The finished request of the main document, by the frame's own loader.
  abbrev pub IsMainFinished : ObservedRequest → Type 0
  IsMainFinished r =
      (speaks_for_main root (scope_of root frames r.entry) r.entry ≡ true)
      × (is_finished r.entry.state ≡ true)

  count_request-rest :
      (r : ObservedRequest) (t : Tally)
      → (count_request root frames strict idle_for r t).target_network_quiet ≡ true
      → (t.target_network_quiet ≡ true) × IsAtRest r
  unfolding count_request
  count_request-rest r t h = rest_of t.target_network_quiet _ _ r.idle_for idle_for h

  count_request-main :
      (r : ObservedRequest) (t : Tally)
      → is_ready (count_request root frames strict idle_for r t).main ≡ true
      → (is_ready t.main ≡ true) ⊎ IsMainFinished r
  unfolding count_request
  count_request-main r t h = main_of _ _ t.main h

  pub count_requests-rest :
      (rs : List ObservedRequest) (t : Tally)
      → (count_requests root frames strict idle_for rs t).target_network_quiet ≡ true
      → (t.target_network_quiet ≡ true) × All IsAtRest rs
  unfolding count_requests
  count_requests-rest [] t h = (h, tt)
  count_requests-rest (r ∷ rs) t h =
      let (q, others) = count_requests-rest rs _ h in
      let (q', own) = count_request-rest r t q in (q', (own, others))

  pub count_requests-main :
      (rs : List ObservedRequest) (t : Tally)
      → is_ready (count_requests root frames strict idle_for rs t).main ≡ true
      → (is_ready t.main ≡ true) ⊎ Some IsMainFinished rs
  unfolding count_requests
  count_requests-main [] t h = inl h
  count_requests-main (r ∷ rs) t h = elim (count_requests-main rs _ h) [
    | inr later ↦ inr (inr later)
    | inl before ↦ elim (count_request-main r t before) [
      | inl old ↦ inl old
      | inr own ↦ inr (inl own)
    ]
  ]

-- A frame of the target was measured, its document was ready, and it is fit unless that is not asked.
abbrev pub IsMeasured : Bool → ScopedFrame → Type 0
IsMeasured strict f =
    (is_target f.scope ≡ false)
    ⊎ (m : Metrics) × (f.metrics ≡ some m)
      × (m.document_ready ≡ true)
      × ((strict || m.eligible) ≡ true)

add_metrics-eligible :
    (strict : Bool) (id : Text) (o : Option Metrics) (m : Measured)
    → (add_metrics strict id o m).eligible ≡ true
    → (m.eligible ≡ true)
      × ((x : Metrics) × (o ≡ some x) × (x.document_ready ≡ true) × ((strict || x.eligible) ≡ true))
add_metrics-eligible strict id none m h = cc
add_metrics-eligible strict id (some x) m h = (ground arith, (x, refl, ground arith, ground arith))

pub measure_frames-IsMeasured :
    (strict eligible : Bool) (fs : List ScopedFrame)
    → (measure_frames strict eligible fs).eligible ≡ true
    → (eligible ≡ true) × All (IsMeasured strict) fs
unfolding measure_frames
measure_frames-IsMeasured strict eligible [] h = (h, tt)
measure_frames-IsMeasured strict eligible (f ∷ rest) h = elim (Bool-cases (is_target f.scope)) [
  | inr skipped ↦
      let (e, others) =
        measure_frames-IsMeasured strict eligible rest (rw (skipped, measure_frames) at h) in
      (e, (inl skipped, others))
  | inl counted ↦
      let (e, own) =
        add_metrics-eligible strict f.frame.id f.metrics (measure_frames strict eligible rest)
          (rw (counted, measure_frames) at h) in
      let (e', others) = measure_frames-IsMeasured strict eligible rest e in (e', (inr own, others))
]

any-false {ℓ} :
    {A : Type ℓ} (p : A → Bool) (xs : List A) → any p xs ≡ false → All (λ x. p x ≡ false) xs
unfolding any
any-false p [] h = tt
any-false p (x ∷ xs) h = (ground arith, any-false p xs (ground arith))

-- What stands behind a sample that is eligible and whose target is quiet.
pub record IsCalm (strict : Bool) (idle_for : ℕ) (o : Observation) : Type 0 where
  pub complete : o.network.complete ≡ true
  pub all_observed : is_nil o.unobserved ≡ true
  pub main_finished :
      Some (IsMainFinished o.root.frame (o.root ∷ o.others) strict idle_for) o.network.requests
  pub at_rest : All (IsAtRest o.root.frame (o.root ∷ o.others) strict idle_for) o.network.requests
  pub none_failed : All (λ r. is_failed_document (o.root ∷ o.others) r ≡ false) o.network.requests
  pub measured : All (IsMeasured strict) (o.root ∷ o.others)

eligible_parts :
    (strict : Bool) (idle_for : ℕ) (o : Observation)
    → may_be_eligible strict idle_for o ≡ true
    → (o.network.complete ≡ true)
      × (is_nil o.unobserved ≡ true)
      × (any (is_failed_document (o.root ∷ o.others)) o.network.requests ≡ false)
      × (is_ready (tally_of strict idle_for o).main ≡ true)
eligible_parts strict idle_for o h = (ground arith, ground arith, ground arith, ground arith)

first_of_and : (a b : Bool) → (a && b) ≡ true → a ≡ true
first_of_and a b h = ground arith

drop_start : {P : Type 0} → (is_ready ReadinessState.unknown ≡ true) ⊎ P → P
drop_start (inl bad) = cc
drop_start (inr p) = p

-- A sample that counts as eligible with a quiet target: nothing of the network was lost and no frame
-- left out; the main document of the root frame, asked for by that frame's loader, has finished and is
-- no hop of a redirect; every request that is not ancillary has ended and been idle for long enough; no
-- document of a frame that is not ancillary (or not known) failed for the frame's own loader; and every
-- frame of the target was measured, with its document ready (and fit, unless the whole page is meant).
pub assess-IsCalm :
    (combine_hash : List (Text × ℕ) → ℕ) (selector : Text) (strict : Bool) (idle_for : ℕ)
    (o : Observation)
    → (assess combine_hash selector strict idle_for o).target_eligible ≡ true
    → (assess combine_hash selector strict idle_for o).target_network_quiet ≡ true
    → IsCalm strict idle_for o
unfolding assess
assess-IsCalm combine_hash selector strict idle_for o eligible quiet =
    let (start, measured) =
      measure_frames-IsMeasured strict _ (o.root ∷ o.others) (first_of_and _ _ eligible) in
    let (complete, observed, fine, main) = eligible_parts strict idle_for o start in
    record {
      complete = complete;
      all_observed = observed;
      main_finished = drop_start (
          count_requests-main o.root.frame (o.root ∷ o.others) strict idle_for o.network.requests _
            main);
      at_rest =
          (count_requests-rest o.root.frame (o.root ∷ o.others) strict idle_for o.network.requests _
            quiet).1;
      none_failed = any-false (is_failed_document (o.root ∷ o.others)) o.network.requests fine;
      measured = measured;
    }
