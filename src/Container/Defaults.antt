-- ===== src/Container/Defaults.antt =====
-- What the defaults of an install do to the arguments of the host.
use agent_first_http.Prelude.{
  Text, Bool, true, false, ◌||◌, ◌≡◌, refl, ap, Option, none, some, List, [], ◌∷◌, ◌++◌, inl, inr,
  if◌then◌else◌, text_eq, text_eq_iff, text_eq_refl, any, member, text_keys, member-append,
  starts_with, strip_prefix, Bool-cases, arith,
}
use agent_first_http.Container.Backends.{
  Backend, backend_name, has_named, find_backend, add_backend, resolve_from,
  push_backend_if_missing,
}
use agent_first_http.Container.HostArgs.{eq_prefix, host_arg_present, host_arg_value_from}

or_true : (b : Bool) → (b || (true || false)) ≡ true
or_true true = refl
or_true false = refl

-- A component that an argument of `--with` names is among the backends of the image.
pub any-append :
    {A : Type 0} (p : A → Bool) (xs ys : List A) → any p (xs ++ ys) ≡ (any p xs || any p ys)
unfolding any
any-append p [] ys = refl
any-append p (x ∷ xs) ys = ground (arith, any-append p xs ys)

add_backend-keeps :
    (name : Text) (out : List Backend) (o : Option Backend)
    → has_named name out ≡ true
    → has_named name (add_backend out o) ≡ true
unfolding add_backend has_named
add_backend-keeps name out none h = h
add_backend-keeps name out (some b) h = elim (Bool-cases (has_named (backend_name b) out)) [
  | inl there ↦ rw there h
  | inr new ↦
      rw new
        (rw (any-append (λ (x : Backend). text_eq (backend_name x) name) out (b ∷ [])) (rw h refl))
]

resolve_from-keeps :
    (name : Text) (names : List Text) (out : List Backend)
    → has_named name out ≡ true
    → has_named name (resolve_from out names) ≡ true
unfolding resolve_from
resolve_from-keeps name [] out h = h
resolve_from-keeps name (n ∷ names) out h =
    resolve_from-keeps name names (add_backend out (find_backend n))
      (add_backend-keeps name out (find_backend n) h)

add_backend-named :
    (out : List Backend) (b : Backend)
    → has_named (backend_name b) (add_backend out (some b)) ≡ true
unfolding add_backend has_named any
add_backend-named out b = elim (Bool-cases (has_named (backend_name b) out)) [
  | inl there ↦ rw there there
  | inr new ↦ rw new (
      rw (any-append (λ (x : Backend). text_eq (backend_name x) (backend_name b)) out (b ∷ []))
        (rw (text_eq_refl (backend_name b)) (or_true (has_named (backend_name b) out))))
]

pub resolve_from-named :
    (b : Backend) (names : List Text) (out : List Backend)
    → find_backend (backend_name b) ≡ some b
    → member (backend_name b) names ≡ true
    → has_named (backend_name b) (resolve_from out names) ≡ true
unfolding resolve_from member
resolve_from-named b [] out known h = cc
resolve_from-named b (n ∷ names) out known h = elim (Bool-cases (text_eq n (backend_name b))) [
  | inl own ↦
      resolve_from-keeps (backend_name b) names (add_backend out (find_backend n))
        (rw ((text_eq_iff n (backend_name b)).0 own) (rw known (add_backend-named out b)))
  | inr other ↦ resolve_from-named b names (add_backend out (find_backend n)) known (rw other at h)
]

pub push_backend_if_missing-member :
    (names : List Text) (name : Text) → member name (push_backend_if_missing names name) ≡ true
unfolding push_backend_if_missing member
push_backend_if_missing-member names name = elim (Bool-cases (member name names)) [
  | inl there ↦ rw there there
  | inr new ↦ rw new (rw (member-append name names (name ∷ [])) (rw (new, text_eq_refl name) refl))
]

pub push_backend_if_missing-keeps :
    (names : List Text) (name other : Text)
    → member other names ≡ true
    → member other (push_backend_if_missing names name) ≡ true
unfolding push_backend_if_missing
push_backend_if_missing-keeps names name other h = elim (Bool-cases (member name names)) [
  | inl there ↦ rw there h
  | inr new ↦ rw new (rw (member-append other names (name ∷ [])) (rw h refl))
]

neither : (a b c : Bool) → ((a || b) || c) ≡ false → (a ≡ false) × ((b ≡ false) × (c ≡ false))
neither false false false h = (refl, (refl, refl))
neither true b c h = cc
neither false true c h = cc
neither false false true h = cc

-- An argument that is not there has no value.
strip_prefix-unmatched : (p s : Text) → starts_with p s ≡ false → strip_prefix p s ≡ none
unfolding starts_with strip_prefix
strip_prefix-unmatched [] s h = cc
strip_prefix-unmatched (p ∷ ps) [] h = refl
strip_prefix-unmatched (p ∷ ps) (c ∷ s) h = ground (arith, strip_prefix-unmatched ps s)

pub host_arg_value_from-absent :
    (name : Text) (value : Option Text) (args : List Text)
    → host_arg_present args name ≡ false
    → host_arg_value_from name value args ≡ value
unfolding host_arg_value_from host_arg_present any
host_arg_value_from-absent name value [] h = refl
host_arg_value_from-absent name value (arg ∷ rest) h =
    let (no_name, (no_prefix, others)) =
      neither (text_eq arg name) (starts_with (eq_prefix name) arg) (host_arg_present rest name)
        h in
    rw (no_name, strip_prefix-unmatched (eq_prefix name) arg no_prefix)
      (host_arg_value_from-absent name value rest others)

-- Whether the last argument is the name, so that its value is missing.
abbrev pub dangles : Text → List Text → Bool
dangles name [] = false
dangles name (arg ∷ []) = text_eq arg name
dangles name (_ ∷ b ∷ rest) = dangles name (b ∷ rest)

otherwise :
    (b : Bool) (u v w : Option Text) → b ≡ false → (if b then u else w) ≡ (if b then v else w)
otherwise true u v w h = cc
otherwise false u v w h = refl

pub host_arg_value_from-append :
    (name : Text) (xs ys : List Text) (value : Option Text)
    → dangles name xs ≡ false
    → host_arg_value_from name value (xs ++ ys)
      ≡ host_arg_value_from name (host_arg_value_from name value xs) ys
unfolding host_arg_value_from
host_arg_value_from-append name [] ys value h = refl
host_arg_value_from-append name (x ∷ []) ys value h =
    ap (λ (o : Option Text). host_arg_value_from name o ys) (otherwise (text_eq x name) _ _ _ h)
host_arg_value_from-append name (x ∷ b ∷ rest) ys value h =
    host_arg_value_from-append name (b ∷ rest) ys _ h
