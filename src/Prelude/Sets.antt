-- ===== src/Prelude/Sets.antt =====
-- Sets and maps (`HashSet`, `HashMap`) as lists, over keys with a test for equality. The order of a
-- hash table is never read by the program.
use Prim.Native.Nat.{ℕ, suc, ◌≤◌}
use mathlib.Core.Path.{◌≡◌, refl, ap}
use mathlib.Core.Logic.{◌↔◌, inl, inr}
use mathlib.Core.Bool.{Bool, true, false, not, ◌&&◌, ◌||◌}
use mathlib.Core.Option.{Option, none, some}
use mathlib.Core.List.{List, [], ◌∷◌, ◌++◌}
use native.Mathlib.Omega.{arith}
use agent_first_http.Prelude.Tests.{◌==◌, ==_iff, ltb, Bool-cases, if◌then◌else◌}
use agent_first_http.Prelude.Lists.{length}
use agent_first_http.Prelude.Texts.{Text, text_eq, text_eq_iff}

-- `o.map(f)`, to the same type
abbrev pub mapped {ℓ} : {A : Type ℓ} → (A → A) → Option A → Option A
mapped f none = none
mapped f (some a) = some (f a)

pub record Eq (A : Type 0) : Type 0 where
  pub beq : A → A → Bool
  pub beq_iff : (a b : A) → (beq a b ≡ true) ↔ (a ≡ b)

instance abbrev pub nat_eq : Eq ℕ
nat_eq = record { beq = ◌==◌; beq_iff = ==_iff }

instance abbrev pub text_keys : Eq Text
text_keys = record { beq = text_eq; beq_iff = text_eq_iff }

module _ {A : Type 0} ⦃e : Eq A⦄ where
  -- `set.contains(&a)`
  unfoldable pub member : A → List A → Bool
  member a [] = false
  member a (x ∷ xs) = e.beq x a || member a xs

  -- How often a list holds an item.
  unfoldable pub count : A → List A → ℕ
  count a [] = 0
  count a (x ∷ xs) = let rest = count a xs in if e.beq x a then suc rest else rest

  -- `set.insert(a)`; its result is `not (member a set)`
  unfoldable pub insert : A → List A → List A
  insert a xs = if member a xs then xs else a ∷ xs

  -- `set.remove(&a)`; its result is `member a set`
  unfoldable pub erase : A → List A → List A
  erase a [] = []
  erase a (x ∷ xs) = let rest = erase a xs in if e.beq x a then rest else x ∷ rest

  pub beq_refl : (a : A) → e.beq a a ≡ true
  beq_refl a = (e.beq_iff a a).1 refl

  pub beq_sym : (a b : A) → e.beq a b ≡ e.beq b a
  beq_sym a b = ground (arith, e.beq_iff a b, e.beq_iff b a)

  pub member-eq-count : (a : A) (xs : List A) → member a xs ≡ ltb 0 (count a xs)
  unfolding member count
  member-eq-count a [] = refl
  member-eq-count a (x ∷ xs) = ground (arith, member-eq-count a xs)

  pub member-insert : (a b : A) (xs : List A) → member b (insert a xs) ≡ (e.beq a b || member b xs)
  unfolding member insert
  member-insert a b xs = ground (arith, e.beq_iff a b)

  pub member-erase :
      (a b : A) (xs : List A) → member b (erase a xs) ≡ (not (e.beq a b) && member b xs)
  unfolding member erase
  member-erase a b [] = ground arith
  member-erase a b (x ∷ xs) =
      ground (arith, member-erase a b xs, e.beq_iff a b, e.beq_iff x a, e.beq_iff x b)

  pub count-insert :
      (a b : A) (xs : List A)
      → count b (insert a xs)
        ≡ (if e.beq a b then (if member a xs then count b xs else suc (count b xs)) else count b xs)
  unfolding count insert
  count-insert a b xs = ground (arith, e.beq_iff a b)

  pub count-erase :
      (a b : A) (xs : List A) → count b (erase a xs) ≡ (if e.beq a b then 0 else count b xs)
  unfolding count erase
  count-erase a b [] = ground arith
  count-erase a b (x ∷ xs) =
      ground (arith, count-erase a b xs, e.beq_iff a b, e.beq_iff x a, e.beq_iff x b)

  pub member-append : (a : A) (xs ys : List A) → member a (xs ++ ys) ≡ (member a xs || member a ys)
  unfolding member
  member-append a [] ys = refl
  member-append a (x ∷ xs) ys = ground (arith, member-append a xs ys)

module _ {A V : Type 0} ⦃e : Eq A⦄ where
  -- `map.get(&k)`
  unfoldable pub get : A → List (A × V) → Option V
  get k [] = none
  get k ((j, v) ∷ m) = if e.beq j k then some v else get k m

  -- `map.remove(&k)`
  unfoldable pub remove : A → List (A × V) → List (A × V)
  remove k [] = []
  remove k ((j, v) ∷ m) = let rest = remove k m in if e.beq j k then rest else (j, v) ∷ rest

  -- `map.insert(k, v)`
  unfoldable pub put : A → V → List (A × V) → List (A × V)
  put k v m = (k, v) ∷ remove k m

  pub get-remove :
      (k j : A) (m : List (A × V)) → get j (remove k m) ≡ (if e.beq k j then none else get j m)
  unfolding get remove
  get-remove k j [] = ground arith
  get-remove k j ((i, v) ∷ m) =
      ground (arith, get-remove k j m, e.beq_iff k j, e.beq_iff i k, e.beq_iff i j)

  pub get-put :
      (k j : A) (v : V) (m : List (A × V))
      → get j (put k v m) ≡ (if e.beq k j then some v else get j m)
  unfolding get put
  get-put k j v m = ground (arith, get-remove k j m)

  -- `map.retain(|k, _| p(k))`
  unfoldable pub retain_keys : (A → Bool) → List (A × V) → List (A × V)
  retain_keys p [] = []
  retain_keys p ((j, v) ∷ m) = let rest = retain_keys p m in if p j then (j, v) ∷ rest else rest

  pub get-retain_keys :
      (p : A → Bool) (k : A) (m : List (A × V))
      → get k (retain_keys p m) ≡ (if p k then get k m else none)
  unfolding get retain_keys
  get-retain_keys p k [] = ground arith
  get-retain_keys p k ((j, v) ∷ m) = ground (arith, get-retain_keys p k m, e.beq_iff j k)

module _ {A V : Type 0} ⦃e : Eq A⦄ where
  pub length-remove : (k : A) (m : List (A × V)) → length (remove k m) ≤ length m
  unfolding remove
  length-remove k [] = omega arith
  length-remove k ((j, v) ∷ m) = ground (arith, length-remove k m)

  -- A key that is there leaves room when it goes.
  pub length-remove_known :
      (k : A) (m : List (A × V)) {v : V} → get k m ≡ some v → suc (length (remove k m)) ≤ length m
  unfolding remove get
  length-remove_known k [] h = cc
  length-remove_known k ((j, v) ∷ m) h = elim (Bool-cases (e.beq j k)) [
    | inl hit ↦ rw hit (omega (arith, length-remove k m))
    | inr miss ↦ rw miss (omega (arith, length-remove_known k m (rw miss at h)))
  ]

  pub length-put : (k : A) (v : V) (m : List (A × V)) → length (put k v m) ≤ suc (length m)
  unfolding put
  length-put k v m = omega (arith, length-remove k m)

  pub length-put_known :
      (k : A) (v : V) (m : List (A × V)) {w : V} → get k m ≡ some w → length (put k v m) ≤ length m
  unfolding put
  length-put_known k v m h = omega (arith, length-remove_known k m h)

  pub remove_unknown : (k : A) (m : List (A × V)) → get k m ≡ none → remove k m ≡ m
  unfolding remove get
  remove_unknown k [] h = refl
  remove_unknown k ((j, v) ∷ m) h = elim (Bool-cases (e.beq j k)) [
    | inl hit ↦ let bad : some v ≡ none = rw hit at h in cc
    | inr miss ↦ rw miss (ap (λ (r : List (A × V)). (j, v) ∷ r) (remove_unknown k m (rw miss at h)))
  ]

  pub length-put_unknown :
      (k : A) (v : V) (m : List (A × V)) → get k m ≡ none → length (put k v m) ≡ suc (length m)
  unfolding put
  length-put_unknown k v m h = ap (λ (r : List (A × V)). suc (length r)) (remove_unknown k m h)
