-- ===== src/Redaction/Leaves.antt =====
-- What the masking of an emitted value does to each string, number, Boolean and null in it.
use agent_first_http.Prelude.{
  ℕ, ◌-◌, ◌==◌, Text, Bool, true, false, ◌&&◌, ◌≡◌, refl, sym, ap, Option, none, some, List, [],
  ◌∷◌, inl, inr, if◌then◌else◌, text_eq, text_eq_iff, mapped, Bool-cases, arith,
}
use agent_first_http.Redaction.Values.{
  Value, string, array, object, Items, nil, item, Fields, end, field, field_at, Place, here, under,
  each, on_string, change, change_field, change_items,
}

-- A step into a value.
pub data Step : Type 0 where
  key : Text → Step
  index : ℕ → Step

unfoldable pub item_at : ℕ → Items → Option Value
item_at i nil = none
item_at i (item v rest) = if i == 0 then some v else item_at (i - 1) rest

-- The scalar at a path: nothing at an object, an array, or where the path leads nowhere.
unfoldable pub child_at : Step → Value → Option Value
unfolding field_at item_at
child_at (key k) (object fields) = field_at k fields
child_at (index i) (array items) = item_at i items
child_at _ _ = none

abbrev pub scalar : Value → Option Value
scalar (object _) = none
scalar (array _) = none
scalar v = some v

abbrev pub and_then : (Value → Option Value) → Option Value → Option Value
and_then f none = none
and_then f (some v) = f v

unfoldable pub leaf_at : List Step → Value → Option Value
unfolding child_at
leaf_at [] v = scalar v
leaf_at (s ∷ path) v = and_then (leaf_at path) (child_at s v)

-- Whether a path is to a place.
abbrev pub leads_to : Place → List Step → Bool
leads_to here [] = true
leads_to (under k place) (key j ∷ path) = text_eq j k && leads_to place path
leads_to (each place) (index i ∷ path) = leads_to place path
leads_to _ _ = false

abbrev pub at_place : (Text → Text) → Place → List Step → Value → Value
at_place f place path v = if leads_to place path then on_string f v else v

pub mapped_same : (o : Option Value) (f : Value → Value) → ((v : Value) → f v ≡ v) → o ≡ mapped f o
mapped_same none f h = refl
mapped_same (some v) f h = ap (λ (x : Value). some x) (sym (h v))

field_at-change_field :
    (f : Text → Text) (k j : Text) (place : Place) (fields : Fields)
    → field_at j (change_field f k place fields)
      ≡ mapped (λ v. if text_eq j k then change f place v else v) (field_at j fields)
unfolding field_at change
field_at-change_field f k j place end = refl
field_at-change_field f k j place (field n v rest) = elim (Bool-cases (text_eq n k)) [
  | inl hit ↦ elim (Bool-cases (text_eq n j)) [
    | inl own ↦
        let e : text_eq j k ≡ true =
          ground (arith, text_eq_iff n k, text_eq_iff n j, text_eq_iff j k, hit, own) in
        rw (hit, own, e) refl
    | inr foreign ↦
        let e : text_eq j k ≡ false =
          ground (arith, text_eq_iff n k, text_eq_iff n j, text_eq_iff j k, hit, foreign) in
        rw (hit, foreign, e) (mapped_same (field_at j rest) (λ v. v) (λ v. refl))
  ]
  | inr miss ↦ elim (Bool-cases (text_eq n j)) [
    | inl own ↦
        let e : text_eq j k ≡ false =
          ground (arith, text_eq_iff n k, text_eq_iff n j, text_eq_iff j k, miss, own) in
        rw (miss, own, e) refl
    | inr foreign ↦ rw (miss, foreign) (field_at-change_field f k j place rest)
  ]
]

item_at-change_items :
    (f : Text → Text) (i : ℕ) (place : Place) (items : Items)
    → item_at i (change_items f place items) ≡ mapped (change f place) (item_at i items)
unfolding item_at change
item_at-change_items f i place nil = refl
item_at-change_items f i place (item v rest) = elim (Bool-cases (i == 0)) [
  | inl now ↦ rw now refl
  | inr later ↦ rw later (item_at-change_items f (i - 1) place rest)
]

pub through :
    (g h : Value → Value) (path : List Step) (o : Option Value)
    → ((v : Value) → leaf_at path (g v) ≡ mapped h (leaf_at path v))
    → and_then (leaf_at path) (mapped g o) ≡ mapped h (and_then (leaf_at path) o)
through g h path none e = refl
through g h path (some v) e = e v

under_key :
    (b : Bool) (f : Text → Text) (place : Place) (path : List Step) (v : Value)
    → leaf_at path (change f place v) ≡ mapped (at_place f place path) (leaf_at path v)
    → leaf_at path (if b then change f place v else v)
      ≡ mapped (λ x. if b && leads_to place path then on_string f x else x) (leaf_at path v)
under_key true f place path v e = e
under_key false f place path v e = mapped_same (leaf_at path v) (λ x. x) (λ x. refl)

-- A change of the strings at a place changes those, and nothing else.
pub leaf_at-change :
    (f : Text → Text) (place : Place) (path : List Step) (v : Value)
    → leaf_at path (change f place v) ≡ mapped (at_place f place path) (leaf_at path v)
unfolding leaf_at change
leaf_at-change f here [] (string t) = refl
leaf_at-change f here [] (object fields) = refl
leaf_at-change f here [] (array items) = refl
leaf_at-change f here [] _ = refl
leaf_at-change f here (key k ∷ path) (string t) = refl
leaf_at-change f here (index i ∷ path) (string t) = refl
leaf_at-change f here (s ∷ path) v =
    mapped_same (leaf_at (s ∷ path) v) (at_place f here (s ∷ path)) (λ v. refl)
leaf_at-change f (under k place) (key j ∷ path) (object fields) =
    rw (field_at-change_field f k j place fields) (
      through (λ v. if text_eq j k then change f place v else v)
        (at_place f (under k place) (key j ∷ path)) path (field_at j fields)
        (λ v. under_key (text_eq j k) f place path v (leaf_at-change f place path v)))
leaf_at-change f (each place) (index i ∷ path) (array items) =
    rw (item_at-change_items f i place items) (
      through (change f place) (at_place f place path) path (item_at i items)
        (λ v. leaf_at-change f place path v))
leaf_at-change f (under k place) [] (object fields) = refl
leaf_at-change f (under k place) [] v = mapped_same (leaf_at [] v) (λ x. x) (λ x. refl)
leaf_at-change f (under k place) (index i ∷ path) (object fields) = refl
leaf_at-change f (under k place) (index i ∷ path) v =
    mapped_same (leaf_at (index i ∷ path) v) (λ x. x) (λ x. refl)
leaf_at-change f (under k place) (key j ∷ path) _ = refl
leaf_at-change f (each place) [] (array items) = refl
leaf_at-change f (each place) [] v = mapped_same (leaf_at [] v) (λ x. x) (λ x. refl)
leaf_at-change f (each place) (key j ∷ path) (array items) = refl
leaf_at-change f (each place) (key j ∷ path) v =
    mapped_same (leaf_at (key j ∷ path) v) (λ x. x) (λ x. refl)
leaf_at-change f (each place) (index i ∷ path) _ = refl
