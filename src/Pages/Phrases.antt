-- ===== src/Pages/Phrases.antt =====
-- What the text searches of Pages.Classification find, said of the text itself.
use mathlib.Core.List.{append-nil}
use agent_first_http.Prelude.{
  ℕ, ◌≡◌, ◌↔◌, refl, sym, subst, ap, ◌∙◌, ◌⊎◌, inl, inr, Text, Bool, true, false, List, [], ◌∷◌,
  ◌++◌, Bool-cases, arith, All, any, starts_with, contains, text_eq_iff,
}
use agent_first_http.Pages.Classification.{is_whitespace, trim_start}

-- The text has the phrase in it.
abbrev pub Says : Text → Text → Type 0
Says t phrase = (before : Text) × (after : Text) × (t ≡ before ++ (phrase ++ after))

-- The text begins with the phrase, behind white space alone.
abbrev pub OpensWith : Text → Text → Type 0
OpensWith t phrase =
    (before : Text) × (after : Text) × All (λ c. is_whitespace c ≡ true) before
    × (t ≡ before ++ (phrase ++ after))

-- Some item of a list has a property.
abbrev pub Has {ℓ} : {A : Type ℓ} → (A → Type 0) → List A → Type 0
Has P [] = ⊥
Has P (x ∷ xs) = P x ⊎ Has P xs

pub any-Has {ℓ} :
    {A : Type ℓ} (p : A → Bool) (P : A → Type 0) (xs : List A)
    → All (λ x. (p x ≡ true) ↔ P x) xs
    → (any p xs ≡ true) ↔ Has P xs
unfolding any
any-Has p P [] h = (λ e. cc, λ e. elim e [ ])
any-Has p P (x ∷ xs) h = (
  λ e. elim (Bool-cases (p x)) [
    | inl t ↦ inl (h.0.0 t)
    | inr f ↦ inr ((any-Has p P xs h.1).0 (ground (arith, e, f)))
  ],
  λ w. elim w [
    | inl t ↦ ground (arith, h.0.1 t)
    | inr r ↦ ground (arith, (any-Has p P xs h.1).1 r)
  ],
)

pub All-each {ℓ} : {A : Type ℓ} {P : A → Type 0} (xs : List A) → ((x : A) → P x) → All P xs
All-each [] h = tt
All-each (x ∷ xs) h = (h x, All-each xs h)

pub All-map {ℓ} :
    {A : Type ℓ} {P Q : A → Type 0} (xs : List A) → ((x : A) → P x → Q x) → All P xs → All Q xs
All-map [] h all = tt
All-map (x ∷ xs) h all = (h x all.0, All-map xs h all.1)

pub starts_with-append : (p s : Text) → starts_with p (p ++ s) ≡ true
unfolding starts_with
starts_with-append [] s = refl
starts_with-append (c ∷ p) s = ground (arith, starts_with-append p s)

starts_with_rest : (p s : Text) → starts_with p s ≡ true → (after : Text) × (s ≡ p ++ after)
unfolding starts_with
starts_with_rest [] s h = (s, refl)
starts_with_rest (c ∷ p) [] h = cc
starts_with_rest (c ∷ p) (d ∷ s) h =
    let (after, e) = starts_with_rest p s (ground arith) in
    let same : c ≡ d = ground arith in (after, rw (same, e) refl)

contains-append : (before n after : Text) → contains (before ++ (n ++ after)) n ≡ true
unfolding contains starts_with
contains-append [] [] [] = (text_eq_iff [] []).1 refl
contains-append [] [] (c ∷ after) = refl
contains-append [] (c ∷ n) after = ground (arith, starts_with-append (c ∷ n) after)
contains-append (c ∷ before) n after = ground (arith, contains-append before n after)

contains_found : (t n : Text) → contains t n ≡ true → Says t n
unfolding contains
contains_found [] n h = ([], [], (text_eq_iff [] n).0 h ∙ sym (append-nil n))
contains_found (c ∷ s) n h = elim (Bool-cases (starts_with n (c ∷ s))) [
  | inl here ↦ let (after, e) = starts_with_rest n (c ∷ s) here in ([], after, e)
  | inr no_ ↦
      let (before, after, e) = contains_found s n (ground arith) in
      (c ∷ before, after, ap (λ (r : Text). c ∷ r) e)
]

pub contains-Says : (t n : Text) → (contains t n ≡ true) ↔ Says t n
contains-Says t n = (
  contains_found t n,
  λ w. subst (λ (s : Text). contains s n ≡ true) (sym w.2) (contains-append w.0 n w.1),
)

trim_start_rest :
    (s : Text)
    → (before : Text) × All (λ c. is_whitespace c ≡ true) before × (s ≡ before ++ trim_start s)
unfolding trim_start
trim_start_rest [] = ([], tt, refl)
trim_start_rest (c ∷ s) = elim (Bool-cases (is_whitespace c)) [
  | inl w ↦
      let (before, all, e) = trim_start_rest s in
      (c ∷ before, (w, all), rw w (ap (λ (r : Text). c ∷ r) e))
  | inr w ↦ ([], tt, rw w refl)
]

trim_start-append :
    (before : Text) (c : ℕ) (s : Text)
    → All (λ c. is_whitespace c ≡ true) before
    → is_whitespace c ≡ false
    → trim_start (before ++ c ∷ s) ≡ c ∷ s
unfolding trim_start
trim_start-append [] c s all w = rw w refl
trim_start-append (b ∷ before) c s all w = rw all.0 (trim_start-append before c s all.1 w)

-- A phrase that does not begin with white space.
abbrev pub IsPhrase : Text → Type 0
IsPhrase [] = ⊥
IsPhrase (c ∷ _) = is_whitespace c ≡ false

pub starts_with-OpensWith :
    (t n : Text) → IsPhrase n → (starts_with n (trim_start t) ≡ true) ↔ OpensWith t n
starts_with-OpensWith t [] w = elim w [ ]
starts_with-OpensWith t (c ∷ n) w = (
  λ h.
      let (before, all, e) = trim_start_rest t in
      let (after, rest) = starts_with_rest (c ∷ n) (trim_start t) h in
      (before, after, all, e ∙ ap (λ (r : Text). before ++ r) rest),
  λ o.
      subst (λ (s : Text). starts_with (c ∷ n) (trim_start s) ≡ true) (sym o.3)
        (subst (λ (s : Text). starts_with (c ∷ n) s ≡ true)
          (sym (trim_start-append o.0 c (n ++ o.1) o.2 w)) (starts_with-append (c ∷ n) o.1)),
)
