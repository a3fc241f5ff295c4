-- ===== src/Redaction/Paths.antt =====
-- What is found in a value, and where, after a change of it.
use agent_first_http.Prelude.{
  Text, codes, Bool, true, false, ◌&&◌, ◌≡◌, refl, sym, ap, ◌∙◌, Option, none, some, List, [], ◌∷◌,
  inl, inr, if◌then◌else◌, text_eq, text_eq_iff, mapped, Bool-cases, arith,
}
use agent_first_http.Redaction.Values.{
  Value, string, array, object, Fields, end, field, field_at, remove_field, get_key, is_string,
  has_code, is_url_name, Place, under, change, target_urls, with_result,
}
use agent_first_http.Redaction.Leaves.{Step, key, index, child_at, scalar, and_then, leaf_at}

-- Whether the last step of a path is a key that names a URL.
abbrev pub names_url : List Step → Bool
names_url [] = false
names_url (key name ∷ []) = is_url_name name
names_url (index i ∷ []) = false
names_url (_ ∷ s ∷ path) = names_url (s ∷ path)

-- Whether a path leads into the answer of the browser.
abbrev pub is_captured : Bool → List Step → Bool
is_captured cdp (key k ∷ _) = cdp && text_eq (codes "result") k
is_captured cdp _ = false

pub either_same : (b : Bool) (v : Value) → v ≡ (if b then v else v)
either_same true v = refl
either_same false v = refl

pub mapped-mapped :
    (f g : Value → Value) (o : Option Value) → mapped f (mapped g o) ≡ mapped (λ v. f (g v)) o
mapped-mapped f g none = refl
mapped-mapped f g (some v) = refl

pub is_string-scalar :
    (t : Text) (o : Option Value) → is_string t o ≡ is_string t (and_then scalar o)
is_string-scalar t none = refl
is_string-scalar t (some (object fields)) = refl
is_string-scalar t (some (array items)) = refl
is_string-scalar t (some (string s)) = refl
is_string-scalar t (some _) = refl

pub is_string-leaf :
    (t : Text) (v : Value)
    → is_string t (get_key (codes "code") v) ≡ is_string t (leaf_at (key (codes "code") ∷ []) v)
unfolding get_key leaf_at child_at
is_string-leaf t (object fields) = is_string-scalar t (field_at (codes "code") fields)
is_string-leaf t _ = refl

-- The `code` is not changed by what masks other places.
pub has_code-leaf :
    (t : Text) (v w : Value)
    → leaf_at (key (codes "code") ∷ []) w ≡ leaf_at (key (codes "code") ∷ []) v
    → has_code t w ≡ has_code t v
unfolding has_code
has_code-leaf t v w e = is_string-leaf t w ∙ (ap (is_string t) e ∙ sym (is_string-leaf t v))

abbrev pub is_object : Value → Bool
is_object (object _) = true
is_object _ = false

pub change-object :
    (f : Text → Text) (k : Text) (place : Place) (v : Value)
    → is_object (change f (under k place) v) ≡ is_object v
unfolding change
change-object f k place (object fields) = refl
change-object f k place v = refl

pub tabs-object :
    (f : Text → Text) (b : Bool) (v : Value)
    → is_object (if b then change f target_urls v else v) ≡ is_object v
tabs-object f true v = change-object f (codes "targets") _ v
tabs-object f false v = refl

-- With the answer of the browser put back, a path into it finds what it was.
pub leaf_at-with_result :
    (raw : Value) (k : Text) (path : List Step) (v : Value)
    → is_object v ≡ true
    → leaf_at (key k ∷ path) (with_result raw v)
      ≡ (if text_eq (codes "result") k then leaf_at path raw else leaf_at (key k ∷ path) v)
unfolding with_result leaf_at field_at
leaf_at-with_result raw k path (object fields) e = elim (Bool-cases (text_eq (codes "result") k)) [
  | inl own ↦ rw own refl
  | inr other ↦ rw other refl
]
leaf_at-with_result raw k path _ e = cc

pub field_at-remove_field :
    (j k : Text) (fields : Fields)
    → text_eq j k ≡ false
    → field_at k (remove_field j fields) ≡ field_at k fields
unfolding field_at remove_field
field_at-remove_field j k end e = refl
field_at-remove_field j k (field n v rest) e = elim (Bool-cases (text_eq n j)) [
  | inl hit ↦
      let other : text_eq n k ≡ false =
        ground (arith, text_eq_iff n j, text_eq_iff n k, text_eq_iff j k, hit, e) in
      rw (hit, other) (field_at-remove_field j k rest e)
  | inr miss ↦ elim (Bool-cases (text_eq n k)) [
    | inl own ↦ rw (miss, own) refl
    | inr foreign ↦ rw (miss, foreign) (field_at-remove_field j k rest e)
  ]
]
