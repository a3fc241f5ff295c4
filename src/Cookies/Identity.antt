-- ===== src/Cookies/Identity.antt =====
-- The identity of a jar entry: name, domain without case, and path. `put_entry` replaces by identity,
-- so a jar is a map from identities to entries, kept in order.
use agent_first_http.Prelude.{
  ◌≡◌, refl, sym, ◌∙◌, true, false, Option, none, some, List, [], ◌∷◌, inl, inr, arith, if_intro,
  if◌then◌else◌, Bool-cases, Option-cases, text_eq_iff, to_ascii_lowercase,
  eq_ignore_ascii_case_iff, All, position,
}
use agent_first_http.Cookies.Scope.{or_root}
use agent_first_http.Cookies.Entry.{JarEntry, same_identity, or_empty}
use agent_first_http.Cookies.Jar.{put_entry}

pub record SameIdentity (a b : JarEntry) : Type 0 where
  pub names : a.name ≡ b.name
  pub domains : to_ascii_lowercase (or_empty a.domain) ≡ to_ascii_lowercase (or_empty b.domain)
  pub paths : or_root a.path ≡ or_root b.path

pub same_identity_sound : (a b : JarEntry) → same_identity a b ≡ true → SameIdentity a b
unfolding same_identity
same_identity_sound a b h = record {
  names = (text_eq_iff a.name b.name).0 (ground arith);
  domains = (eq_ignore_ascii_case_iff (or_empty a.domain) (or_empty b.domain)).0 (ground arith);
  paths = (text_eq_iff (or_root a.path) (or_root b.path)).0 (ground arith);
}

pub same_identity_complete : (a b : JarEntry) → SameIdentity a b → same_identity a b ≡ true
unfolding same_identity
same_identity_complete a b h = rw (
  (text_eq_iff a.name b.name).1 h.names,
  (eq_ignore_ascii_case_iff (or_empty a.domain) (or_empty b.domain)).1 h.domains,
  (text_eq_iff (or_root a.path) (or_root b.path)).1 h.paths,
)

pub same_identity_refl : (a : JarEntry) → same_identity a a ≡ true
same_identity_refl a =
    same_identity_complete a a (record { names = refl; domains = refl; paths = refl })

pub same_identity_sym : (a b : JarEntry) → same_identity a b ≡ true → same_identity b a ≡ true
same_identity_sym a b h =
    let s = same_identity_sound a b h in
    same_identity_complete b a
      (record { names = sym s.names; domains = sym s.domains; paths = sym s.paths })

pub same_identity_trans :
    (a b c : JarEntry)
    → same_identity a b ≡ true
    → same_identity b c ≡ true
    → same_identity a c ≡ true
same_identity_trans a b c h k =
    let s = same_identity_sound a b h in
    let t = same_identity_sound b c k in
    same_identity_complete a c (record {
      names = s.names ∙ t.names;
      domains = s.domains ∙ t.domains;
      paths = s.paths ∙ t.paths;
    })

pub put_entry-nil : (e : JarEntry) → put_entry e [] ≡ e ∷ []
unfolding put_entry position
put_entry-nil e = refl

pub put_entry-cons :
    (e x : JarEntry) (xs : List JarEntry)
    → put_entry e (x ∷ xs) ≡ (if same_identity x e then e ∷ xs else x ∷ put_entry e xs)
unfolding put_entry position
put_entry-cons e x xs = elim (Bool-cases (same_identity x e)) [
  | inl p ↦ rw p
  | inr p ↦ elim (Option-cases (position (λ x. same_identity x e) xs)) [
    | inl q ↦ rw (p, q)
    | inr q ↦ rw (p, q.1)
  ]
]

-- The entry that the jar has for the identity of `k`.
unfoldable pub stored : JarEntry → List JarEntry → Option JarEntry
stored k [] = none
stored k (x ∷ xs) = if same_identity x k then some x else stored k xs

-- `put_entry` is the update of a map.
pub stored-put_entry :
    (e k : JarEntry) (es : List JarEntry)
    → stored k (put_entry e es) ≡ (if same_identity e k then some e else stored k es)
unfolding stored
stored-put_entry e k [] = rw put_entry-nil refl
stored-put_entry e k (x ∷ xs) = rw put_entry-cons (
    ground (
      arith,
      stored-put_entry e k xs,
      same_identity_sym x e,
      same_identity_sym e k,
      same_identity_trans e x k,
      same_identity_trans x e k,
      same_identity_trans x k e,
    ))

-- No two entries have one identity.
abbrev pub IsUnique : List JarEntry → Type 0
IsUnique [] = Unit
IsUnique (x ∷ xs) = All (λ y. same_identity x y ≡ false) xs × IsUnique xs

All-put_entry {κ} :
    (P : JarEntry → Type κ) (e : JarEntry) (es : List JarEntry)
    → P e
    → All P es
    → All P (put_entry e es)
All-put_entry P e [] he h = rw put_entry-nil (he, tt)
All-put_entry P e (x ∷ xs) he h = rw put_entry-cons (
    if_intro (All P) (same_identity x e) (λ _. (he, h.1)) (λ _. (h.0, All-put_entry P e xs he h.1)))

differs_along :
    (x e y : JarEntry)
    → same_identity x e ≡ true
    → same_identity x y ≡ false
    → same_identity e y ≡ false
differs_along x e y p q = ground (arith, same_identity_trans x e y)

All-differs_along :
    (x e : JarEntry) (ys : List JarEntry)
    → same_identity x e ≡ true
    → All (λ y. same_identity x y ≡ false) ys
    → All (λ y. same_identity e y ≡ false) ys
All-differs_along x e [] p h = tt
All-differs_along x e (y ∷ ys) p h = (differs_along x e y p h.0, All-differs_along x e ys p h.1)

pub put_entry-IsUnique :
    (e : JarEntry) (es : List JarEntry) → IsUnique es → IsUnique (put_entry e es)
put_entry-IsUnique e [] h = rw put_entry-nil (tt, tt)
put_entry-IsUnique e (x ∷ xs) h = rw put_entry-cons (
    if_intro IsUnique (same_identity x e) (λ p. (All-differs_along x e xs p h.0, h.1))
      (λ p.
        (All-put_entry (λ y. same_identity x y ≡ false) e xs p h.0, put_entry-IsUnique e xs h.1)))
