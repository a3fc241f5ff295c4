-- ===== src/Prelude/Maps.antt =====
-- Predicates on the entries of a map, under the operations of `Prelude.Sets`.
use mathlib.Core.Path.{◌≡◌, subst, refl}
use mathlib.Core.Logic.{inl, inr}
use mathlib.Core.Option.{none, some}
use mathlib.Core.List.{List, [], ◌∷◌}
use agent_first_http.Prelude.Tests.{Bool-cases}
use agent_first_http.Prelude.Lists.{All}
use agent_first_http.Prelude.Sets.{Eq, get, put, remove, get-remove, beq_sym, beq_refl}

module _ {A V : Type 0} ⦃e : Eq A⦄ (P : A → V → Type 0) where
  pub remove-All :
      (k : A) (m : List (A × V))
      → All (λ (x : A × V). P x.0 x.1) m
      → All (λ (x : A × V). P x.0 x.1) (remove k m)
  unfolding remove
  remove-All k [] h = h
  remove-All k ((j, v) ∷ m) h = elim (Bool-cases (e.beq j k)) [
    | inl hit ↦ rw hit (remove-All k m h.1)
    | inr miss ↦ rw miss (h.0, remove-All k m h.1)
  ]

  pub put-All :
      (k : A) (v : V) (m : List (A × V))
      → P k v
      → All (λ (x : A × V). P x.0 x.1) m
      → All (λ (x : A × V). P x.0 x.1) (put k v m)
  unfolding put
  put-All k v m p h = (p, remove-All k m h)

module _ {A V : Type 0} ⦃e : Eq A⦄ (Q : V → Type 0) where
  pub get-All :
      (k : A) (m : List (A × V)) {v : V} → All (λ (x : A × V). Q x.1) m → get k m ≡ some v → Q v
  unfolding get
  get-All k [] h found = cc
  get-All k ((j, v) ∷ m) {v = w} h found = elim (Bool-cases (e.beq j k)) [
    | inl hit ↦
        let same : some v ≡ some w = rw hit at found in let equal : v ≡ w = cc in subst Q equal h.0
    | inr miss ↦ get-All k m h.1 (rw miss at found)
  ]

module _ {A V : Type 0} ⦃e : Eq A⦄ where
  -- No key is there twice.
  abbrev pub Distinct : List (A × V) → Type 0
  Distinct [] = Unit
  Distinct ((k, v) ∷ m) = (get k m ≡ none) × Distinct m

module _ {A V : Type 0} ⦃e : Eq A⦄ where
  pub remove-Distinct : (k : A) (m : List (A × V)) → Distinct m → Distinct (remove k m)
  unfolding remove
  remove-Distinct k [] h = h
  remove-Distinct k ((j, v) ∷ m) h = elim (Bool-cases (e.beq j k)) [
    | inl hit ↦ rw hit (remove-Distinct k m h.1)
    | inr miss ↦
        rw miss (rw (get-remove k j m) (rw (beq_sym k j) (rw miss h.0)), remove-Distinct k m h.1)
  ]

  pub put-Distinct : (k : A) (v : V) (m : List (A × V)) → Distinct m → Distinct (put k v m)
  unfolding put
  put-Distinct k v m h = (rw (get-remove k k m) (rw (beq_refl k) refl), remove-Distinct k m h)
