-- ===== src/Readiness/Held.antt =====
-- What a stable page has shown.
use agent_first_http.Prelude.{
  ℕ, ◌-◌, ◌≤◌, ◌≡◌, refl, subst, Bool, true, false, not, ◌&&◌, Option, none, some, List, [], ◌∷◌,
  leb, if◌then◌else◌, ◌⊎◌, inl, inr, Bool-cases, arith,
}
use agent_first_http.Listener.Requests.{is_some_and}
use agent_first_http.Readiness.Stability.{
  PageMetrics, track_from, is_same_dom, is_same_text, observe, after,
}

-- The samples back to one made at `since` all agree with `m`, by a test.
pub data HeldSince (agrees : PageMetrics → PageMetrics → Bool) (m : PageMetrics) (since : ℕ)
    : List (PageMetrics × ℕ) → Type 0 where
  begins :
      {l : PageMetrics} {older : List (PageMetrics × ℕ)}
      → agrees m l ≡ true
      → HeldSince agrees m since ((l, since) ∷ older)
  holds :
      {l : PageMetrics} {at : ℕ} {older : List (PageMetrics × ℕ)}
      → agrees m l ≡ true
      → HeldSince agrees m since older
      → HeldSince agrees m since ((l, at) ∷ older)

module _ (agrees : PageMetrics → PageMetrics → Bool)
    (agrees_refl : (m : PageMetrics) → agrees m m ≡ true)
    (agrees_trans : (m l k : PageMetrics)
      → agrees m l ≡ true
      → agrees l k ≡ true
      → agrees m k ≡ true) where
  HeldSince-agrees :
      (m l : PageMetrics) {since : ℕ} {h : List (PageMetrics × ℕ)}
      → agrees m l ≡ true
      → HeldSince agrees l since h
      → HeldSince agrees m since h
  HeldSince-agrees m l a (begins {l = k} e) = begins (agrees_trans m l k a e)
  HeldSince-agrees m l a (holds {l = k} e r) =
      holds (agrees_trans m l k a e) (HeldSince-agrees m l a r)

  -- One more sample; `held` is what the earlier ones show, if there are any.
  next-HeldSince :
      (m : PageMetrics) (now since : ℕ) (last : Option PageMetrics) (older : List (PageMetrics × ℕ))
      → ((l : PageMetrics) → last ≡ some l → HeldSince agrees l since older)
      → HeldSince agrees m
          (if not (is_some_and last (agrees m)) then now else since)
          ((m, now) ∷ older)
  next-HeldSince m now since none older held = begins (agrees_refl m)
  next-HeldSince m now since (some l) older held = elim (Bool-cases (agrees m l)) [
    | inl e ↦ rw e (holds (agrees_refl m) (HeldSince-agrees m l e (held l refl)))
    | inr e ↦ rw e (begins (agrees_refl m))
  ]

is_same_text_refl : (m : PageMetrics) → is_same_text m m ≡ true
unfolding is_same_text
is_same_text_refl m = ground arith

is_same_text_trans :
    (m l k : PageMetrics)
    → is_same_text m l ≡ true
    → is_same_text l k ≡ true
    → is_same_text m k ≡ true
unfolding is_same_text
is_same_text_trans m l k a b = ground arith

is_same_dom_refl : (m : PageMetrics) → is_same_dom m m ≡ true
unfolding is_same_dom
is_same_dom_refl m = ground arith

is_same_dom_trans :
    (m l k : PageMetrics) → is_same_dom m l ≡ true → is_same_dom l k ≡ true → is_same_dom m k ≡ true
unfolding is_same_dom
is_same_dom_trans m l k a b = ground arith

some_eq : {m l : PageMetrics} → ◌≡◌ {A = Option PageMetrics} (some m) (some l) → m ≡ l
some_eq e = cc

module _ (stable_for start : ℕ) where
  text_held :
      (h : List (PageMetrics × ℕ)) (l : PageMetrics)
      → (after stable_for start h).last ≡ some l
      → HeldSince is_same_text l (after stable_for start h).text_unchanged_since h
  unfolding after observe track_from
  text_held [] l e = absurd (ground arith)
  text_held ((m, now) ∷ older) l e =
      subst
        (λ (k : PageMetrics).
          HeldSince is_same_text k (after stable_for start ((m, now) ∷ older)).text_unchanged_since
            ((m, now) ∷ older))
        (some_eq e)
        (next-HeldSince is_same_text is_same_text_refl is_same_text_trans m now
          (after stable_for start older).text_unchanged_since (after stable_for start older).last
          older (text_held older))

  dom_held :
      (h : List (PageMetrics × ℕ)) (l : PageMetrics)
      → (after stable_for start h).last ≡ some l
      → HeldSince is_same_dom l (after stable_for start h).dom_unchanged_since h
  unfolding after observe track_from
  dom_held [] l e = absurd (ground arith)
  dom_held ((m, now) ∷ older) l e =
      subst
        (λ (k : PageMetrics).
          HeldSince is_same_dom k (after stable_for start ((m, now) ∷ older)).dom_unchanged_since
            ((m, now) ∷ older))
        (some_eq e)
        (next-HeldSince is_same_dom is_same_dom_refl is_same_dom_trans m now
          (after stable_for start older).dom_unchanged_since (after stable_for start older).last
          older (dom_held older))

-- The samples have agreed for a while: back to one that is at least that old.
abbrev pub Settled :
    (PageMetrics → PageMetrics → Bool) → PageMetrics → ℕ → ℕ → List (PageMetrics × ℕ) → Type 0
Settled agrees m stable_for now h =
    (since : ℕ) × HeldSince agrees m since h × (stable_for ≤ now - since)

long_enough :
    (same : Bool) (stable_for age : ℕ) → (same && leb stable_for age) ≡ true → stable_for ≤ age
long_enough same stable_for age h = ground arith

-- After any samples, the tracker calls the text stable only if the newest sample and those before it,
-- back to one that is older by at least the time asked for, all have its length and hash of the text;
-- and the DOM only if all of these have its number of nodes and hash of the DOM.
pub after-Settled :
    (stable_for start : ℕ) (m : PageMetrics) (now : ℕ) (older : List (PageMetrics × ℕ))
    → let t = after stable_for start ((m, now) ∷ older) in
      ((t.text_stable ≡ false) ⊎ Settled is_same_text m stable_for now ((m, now) ∷ older))
      × ((t.dom_stable ≡ false) ⊎ Settled is_same_dom m stable_for now ((m, now) ∷ older))
unfolding after observe
after-Settled stable_for start m now older =
    let h = (m, now) ∷ older in
    let t = after stable_for start ((m, now) ∷ older) in
    (
      elim (Bool-cases t.text_stable) [
        | inr e ↦ inl e
        | inl e ↦ inr (
          t.text_unchanged_since,
          text_held stable_for start ((m, now) ∷ older) m refl,
          long_enough _ stable_for (now - t.text_unchanged_since) e,
        )
      ],
      elim (Bool-cases t.dom_stable) [
        | inr e ↦ inl e
        | inl e ↦ inr (
          t.dom_unchanged_since,
          dom_held stable_for start ((m, now) ∷ older) m refl,
          long_enough _ stable_for (now - t.dom_unchanged_since) e,
        )
      ],
    )
