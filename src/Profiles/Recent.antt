-- ===== src/Profiles/Recent.antt =====
-- host/listener/recent_requests.rs: the ring of the last requests, and that it holds the last ones.
use agent_first_http.Prelude.{
  ℕ, zero, suc, ◌-◌, ◌≤◌, ◌<◌, ◌≡◌, refl, sym, ap, ◌∙◌, inl, inr, true, false, List, [], ◌∷◌, ◌++◌,
  leb, ◌==◌, if◌then◌else◌, length, length-append, Bool-cases, arith,
}

module _ {ℓ} {R : Type ℓ} where
  -- `pop_front`
  abbrev pub pop_front : List R → List R
  pop_front [] = []
  pop_front (r ∷ ring) = ring

  unfoldable pub push : ℕ → R → List R → List R
  push cap record_ ring =
      if cap == 0
      then ring
      else (if leb cap (length ring) then pop_front ring else ring) ++ record_ ∷ []

  unfoldable pub push_all : ℕ → List R → List R → List R
  push_all cap ring [] = ring
  push_all cap ring (r ∷ rs) = push_all cap (push cap r ring) rs

  abbrev pub drop : ℕ → List R → List R
  drop zero rs = rs
  drop (suc n) [] = []
  drop (suc n) (r ∷ rs) = drop n rs

  append-nil : (rs : List R) → rs ++ [] ≡ rs
  append-nil [] = refl
  append-nil (r ∷ rs) = ap (λ (l : List R). r ∷ l) (append-nil rs)

  append_assoc : (xs ys zs : List R) → (xs ++ ys) ++ zs ≡ xs ++ (ys ++ zs)
  append_assoc [] ys zs = refl
  append_assoc (x ∷ xs) ys zs = ap (λ (l : List R). x ∷ l) (append_assoc xs ys zs)

  -- The last items of a list, no more than a number.
  abbrev pub last_items : ℕ → List R → List R
  last_items cap rs = drop (length rs - cap) rs

  push-short :
      (cap : ℕ) (r : R) (ring : List R)
      → cap == 0 ≡ false
      → leb cap (length ring) ≡ false
      → push cap r ring ≡ ring ++ r ∷ []
  unfolding push
  push-short cap r ring h k = rw (h, k) refl

  push-full :
      (cap : ℕ) (r x : R) (ring : List R)
      → cap == 0 ≡ false
      → leb cap (length (x ∷ ring)) ≡ true
      → push cap r (x ∷ ring) ≡ ring ++ r ∷ []
  unfolding push
  push-full cap r x ring h k = rw (h, k) refl

  last_items-short : (cap : ℕ) (rs : List R) → length rs ≤ cap → rs ≡ last_items cap rs
  last_items-short cap rs h =
      let none_left : length rs - cap ≡ 0 = omega arith in ap (λ (n : ℕ). drop n rs) (sym none_left)

  last_items-cons :
      (cap : ℕ) (x : R) (rs : List R)
      → cap ≤ length rs
      → last_items cap rs ≡ last_items cap (x ∷ rs)
  last_items-cons cap x rs h =
      let one_more : length (x ∷ rs) - cap ≡ suc (length rs - cap) = omega arith in
      ap (λ (n : ℕ). drop n (x ∷ rs)) (sym one_more)

  push_all-last_items :
      (c : ℕ) (ring rs : List R)
      → length ring ≤ suc c
      → push_all (suc c) ring rs ≡ last_items (suc c) (ring ++ rs)
  unfolding push_all
  push_all-last_items c ring [] h =
      last_items-short (suc c) ring h ∙ ap (last_items (suc c)) (sym (append-nil ring))
  push_all-last_items c [] (r ∷ rs) h =
      ap (λ (l : List R). push_all (suc c) l rs)
        (push-short (suc c) r [] (ground arith) (ground arith))
      ∙ push_all-last_items c (r ∷ []) rs (omega arith)
  push_all-last_items c (x ∷ ring) (r ∷ rs) h =
      elim (Bool-cases (leb (suc c) (length (x ∷ ring)))) [
        | inr short ↦
            ap (λ (l : List R). push_all (suc c) l rs)
              (push-short (suc c) r (x ∷ ring) (ground arith) short)
            ∙ push_all-last_items c ((x ∷ ring) ++ r ∷ []) rs
                (length_snoc (x ∷ ring) r (ground arith))
            ∙ ap (last_items (suc c)) (append_assoc (x ∷ ring) (r ∷ []) rs)
        | inl full ↦
            ap (λ (l : List R). push_all (suc c) l rs)
              (push-full (suc c) r x ring (ground arith) full)
            ∙ push_all-last_items c (ring ++ r ∷ []) rs (length_snoc ring r (omega arith))
            ∙ ap (last_items (suc c)) (append_assoc ring (r ∷ []) rs)
            ∙ last_items-cons (suc c) x (ring ++ r ∷ rs) (fills ring r rs (ground arith))
      ]
    where
      length_snoc : {n : ℕ} (l : List R) (y : R) → length l < n → length (l ++ y ∷ []) ≤ n
      length_snoc l y p = omega (arith, length-append l (y ∷ []))

      fills :
          {n : ℕ} (l : List R) (y : R) (ys : List R) → n ≤ suc (length l) → n ≤ length (l ++ y ∷ ys)
      fills l y ys p = omega (arith, length-append l (y ∷ ys))

  push_all-zero : (ring rs : List R) → push_all 0 ring rs ≡ ring
  unfolding push_all push
  push_all-zero ring [] = refl
  push_all-zero ring (r ∷ rs) = push_all-zero ring rs

  drop-length : (rs : List R) → [] ≡ drop (length rs) rs
  drop-length [] = refl
  drop-length (r ∷ rs) = drop-length rs

  last_items-zero : (rs : List R) → [] ≡ last_items 0 rs
  last_items-zero rs =
      let whole : length rs - 0 ≡ length rs = omega arith in
      drop-length rs ∙ ap (λ (n : ℕ). drop n rs) (sym whole)

  -- The ring of a capacity that has had requests pushed onto it since it was empty holds the last of
  -- them, as many as the capacity, in order.
  pub push_all_lem : (cap : ℕ) (rs : List R) → push_all cap [] rs ≡ last_items cap rs
  push_all_lem zero rs = push_all-zero [] rs ∙ last_items-zero rs
  push_all_lem (suc c) rs = push_all-last_items c [] rs (omega arith)
