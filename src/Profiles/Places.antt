-- ===== src/Profiles/Places.antt =====
-- A valid name is one directory below the root of the profiles, on every file system.
use agent_first_http.Prelude.{
  ℕ, ◌≡◌, ◌<◌, inl, inr, refl, sym, ap, ◌∙◌, Text, codes, Bool, true, false, not, ◌||◌, List, [],
  ◌∷◌, ◌++◌, ltb, ◌==◌, if◌then◌else◌, length, text_eq, text_eq_iff, starts_with_char,
  ends_with_char, Bool-cases, if_intro, arith, All, member, text_keys, subst, length-append,
}
use agent_first_http.Errors.{Error, Result, ok, err, >>=-ok}
use agent_first_http.Profiles.Names.{
  is_alphanumeric, is_name_char, all_name_chars, known_backends, validate_name,
  validate_backend_key, join, join_root_backend_name,
}

-- A separator of Unix or of Windows.
abbrev pub is_separator : ℕ → Bool
is_separator c = c == b'/' || c == 92

abbrev add_to_first : ℕ → List Text → List Text
add_to_first c [] = (c ∷ []) ∷ []
add_to_first c (w ∷ ws) = (c ∷ w) ∷ ws

-- The components of a path.
unfoldable pub components : Text → List Text
components [] = [] ∷ []
components (c ∷ s) = if is_separator c then [] ∷ components s else add_to_first c (components s)

abbrev drop_last : List Text → List Text
drop_last [] = []
drop_last (w ∷ []) = []
drop_last (w ∷ v ∷ ws) = w ∷ drop_last (v ∷ ws)

-- Where a component leads from a directory: nowhere, to its parent, or below it.
unfoldable pub enter : List Text → Text → List Text
enter place w =
    if text_eq w [] || text_eq w (codes ".")
    then place
    else if text_eq w (codes "..")
    then drop_last place
    else place ++ w ∷ []

unfoldable pub walk : List Text → List Text → List Text
unfolding enter
walk place [] = place
walk place (w ∷ ws) = walk (enter place w) ws

-- A character of a name is no separator.
name_char_stays : (c : ℕ) → is_name_char c ≡ true → is_separator c ≡ false
unfolding is_name_char is_alphanumeric
name_char_stays c h = ground arith

one_component : (s : Text) → all_name_chars s ≡ true → components s ≡ s ∷ []
unfolding components all_name_chars
one_component [] h = refl
one_component (c ∷ s) h =
    let ih = one_component s (ground arith) in
    let stays = name_char_stays c (ground arith) in rw (stays, ih) refl

nonempty : List Text → Bool
nonempty [] = false
nonempty (w ∷ ws) = true

add_to_first-nonempty : (c : ℕ) (ws : List Text) → nonempty (add_to_first c ws) ≡ true
unfolding nonempty
add_to_first-nonempty c [] = refl
add_to_first-nonempty c (w ∷ ws) = refl

components-nonempty : (s : Text) → nonempty (components s) ≡ true
unfolding components nonempty
components-nonempty [] = refl
components-nonempty (c ∷ s) =
    if_intro (λ (ws : List Text). nonempty ws ≡ true) (is_separator c) (λ _. refl)
      (λ _. add_to_first-nonempty c (components s))

first_of_more :
    (c : ℕ) (vs ws : List Text)
    → nonempty vs ≡ true
    → add_to_first c (vs ++ ws) ≡ add_to_first c vs ++ ws
unfolding nonempty
first_of_more c [] ws h = cc
first_of_more c (v ∷ vs) ws h = refl

components-join : (s t : Text) → components (s ++ b'/' ∷ t) ≡ components s ++ components t
unfolding components
components-join [] t = refl
components-join (c ∷ s) t = elim (Bool-cases (is_separator c)) [
  | inl e ↦ rw e (ap (λ (ws : List Text). [] ∷ ws) (components-join s t))
  | inr e ↦ rw e (
      ap (add_to_first c) (components-join s t)
      ∙ first_of_more c (components s) (components t) (components-nonempty s))
]

walk-append :
    (place : List Text) (vs ws : List Text) → walk place (vs ++ ws) ≡ walk (walk place vs) ws
unfolding walk
walk-append place [] ws = refl
walk-append place (v ∷ vs) ws = walk-append (enter place v) vs ws

-- A component that is neither empty nor begins with a dot leads below.
enter-below :
    (place : List Text) (w : Text)
    → 0 < length w
    → starts_with_char w b'.' ≡ false
    → enter place w ≡ place ++ w ∷ []
unfolding enter text_eq
enter-below place [] l h = absurd (omega arith)
enter-below place (c ∷ s) l h = ground arith

-- What a directory's name is made of here.
abbrev IsPlain : Text → Type 0
IsPlain name =
    (0 < length name) × (starts_with_char name b'.' ≡ false) × (all_name_chars name ≡ true)

not_refused :
    (e : Error) (b : Bool) {r : Result (Unit {0})}
    → (if b then err e else r) ≡ ok tt
    → (b ≡ false) × (r ≡ ok tt)
not_refused e true h = cc
not_refused e false h = (refl, h)

validate_name-IsPlain : (name : Text) → validate_name name ≡ ok tt → IsPlain name
unfolding validate_name
validate_name-IsPlain name h =
    let (some_char, h1) = not_refused _ (length name == 0) h in
    let (short, h2) = not_refused _ (ltb 64 (length name)) h1 in
    let (no_dot, h3) = not_refused _ (starts_with_char name b'.') h2 in
    let (no_last_dot, h4) = not_refused _ (ends_with_char name b'.') h3 in
    let (chars, h5) = not_refused _ (not (all_name_chars name)) h4 in
    (ground arith, no_dot, ground arith)

backends-IsPlain : All IsPlain known_backends
unfolding all_name_chars is_name_char
backends-IsPlain = ground arith

member-All : (P : Text → Type 0) (a : Text) (xs : List Text) → All P xs → member a xs ≡ true → P a
unfolding member
member-All P a [] h m = cc
member-All P a (x ∷ xs) h m = elim (Bool-cases (text_eq x a)) [
  | inl e ↦ subst P ((text_eq_iff x a).0 e) h.0
  | inr e ↦ member-All P a xs h.1 (rw e at m)
]

relative : (name : Text) → all_name_chars name ≡ true → starts_with_char name b'/' ≡ false
unfolding all_name_chars
relative [] h = refl
relative (c ∷ s) h = ground (arith, name_char_stays c)

no_last_slash : (name : Text) → all_name_chars name ≡ true → ends_with_char name b'/' ≡ false
unfolding all_name_chars ends_with_char
no_last_slash [] h = refl
no_last_slash (c ∷ []) h = ground (arith, name_char_stays c)
no_last_slash (c ∷ d ∷ s) h = no_last_slash (d ∷ s) (ground arith)

ends_with_char-append :
    (s t : Text) (k : ℕ) → 0 < length t → ends_with_char (s ++ t) k ≡ ends_with_char t k
unfolding ends_with_char
ends_with_char-append [] t k h = refl
ends_with_char-append (c ∷ []) [] k h = absurd (omega arith)
ends_with_char-append (c ∷ []) (d ∷ t) k h = refl
ends_with_char-append (c ∷ d ∷ s) t k h = ends_with_char-append (d ∷ s) t k h

-- Joining a plain name leads one directory down.
plain_join :
    (root name : Text)
    → 0 < length root
    → ends_with_char root b'/' ≡ false
    → IsPlain name
    → join root name ≡ root ++ b'/' ∷ name
unfolding join
plain_join root name l e plain = ground (arith, relative name plain.2)

walk-join :
    (root name : Text)
    → 0 < length root
    → ends_with_char root b'/' ≡ false
    → IsPlain name
    → walk [] (components (join root name)) ≡ walk [] (components root) ++ name ∷ []
unfolding walk
walk-join root name l e plain =
    ap (λ (p : Text). walk [] (components p)) (plain_join root name l e plain)
    ∙ ap (walk []) (
        components-join root name
        ∙ ap (λ (ws : List Text). components root ++ ws) (one_component name plain.2))
    ∙ walk-append [] (components root) (name ∷ [])
    ∙ enter-below (walk [] (components root)) name plain.0 plain.1

joined_root :
    (root name : Text)
    → 0 < length root
    → ends_with_char root b'/' ≡ false
    → IsPlain name
    → (0 < length (join root name)) × (ends_with_char (join root name) b'/' ≡ false)
joined_root root name l e plain = rw (plain_join root name l e plain) (
  omega (arith, length-append root (b'/' ∷ name)),
  ends_with_char-append root (b'/' ∷ name) b'/' (omega arith)
      ∙ ends_with_char-append (b'/' ∷ []) name b'/' plain.0
      ∙ no_last_slash name plain.2,
)

known-IsPlain : (backend : Text) → validate_backend_key backend ≡ ok tt → IsPlain backend
unfolding validate_backend_key
known-IsPlain backend h = member-All IsPlain backend known_backends backends-IsPlain (ground arith)

-- Where a backend and a name are accepted under a root that does not end with a slash, the path leads
-- to the root's directory, then the backend, then the name: no part of the name is read as a
-- separator, as `.` or as `..`, by the rules of Unix or of Windows.
pub join_root_backend_name-place :
    (root backend name path : Text)
    → 0 < length root
    → ends_with_char root b'/' ≡ false
    → join_root_backend_name root backend name ≡ ok path
    → walk [] (components path) ≡ (walk [] (components root) ++ backend ∷ []) ++ name ∷ []
unfolding join_root_backend_name
join_root_backend_name-place root backend name path l e h =
    let (known, b, h1) = >>=-ok (validate_backend_key backend) _ h in
    let (valid, n, h2) = >>=-ok (validate_name name) _ h1 in
    let backend_plain = known-IsPlain backend b in
    let name_plain = validate_name-IsPlain name n in
    let (long, no_slash) = joined_root root backend l e backend_plain in
    let made : join (join root backend) name ≡ path = cc h2 in
    ap (λ (p : Text). walk [] (components p)) (sym made)
    ∙ walk-join (join root backend) name long no_slash name_plain
    ∙ ap (λ (place : List Text). place ++ name ∷ []) (walk-join root backend l e backend_plain)
