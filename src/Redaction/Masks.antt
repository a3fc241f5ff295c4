-- ===== src/Redaction/Masks.antt =====
-- Which strings of an event are masked where no answer of the browser is in it.
use agent_first_http.Prelude.{
  ℕ, ◌-◌, ◌==◌, Text, codes, Bool, true, false, ◌≡◌, refl, sym, ap, ◌∙◌, some, List, [], ◌∷◌, inl,
  inr, if◌then◌else◌, text_eq, text_eq_iff, ends_with, mapped, Bool-cases,
}
use agent_first_http.Redaction.Values.{
  Value, null, bool, number, string, array, object, Items, nil, item, Fields, end, field, field_at,
  has_code, is_url_name, on_string, change, warning_details, recommended_command, target_urls,
  redact_url_fields_in_place, redact_fields, redact_items, redact_envelope_prose,
}
use agent_first_http.Redaction.Leaves.{
  Step, key, index, item_at, scalar, leaf_at, at_place, mapped_same, through, leaf_at-change,
}
use agent_first_http.Redaction.Paths.{
  names_url, either_same, mapped-mapped, has_code-leaf, is_object, change-object, tabs-object,
}

module _ (redact_url redact_urls_in_text : Text → Text) where
  abbrev pub at_name : List Step → Value → Value
  at_name path v = if names_url path then on_string redact_url v else v

  -- What is done to the string at a path, outside the answer of the browser.
  abbrev pub own_mask : Bool → List Step → Value → Value
  own_mask tabs path v =
      let told = at_place redact_urls_in_text warning_details path (at_name path v) in
      let advised = at_place redact_urls_in_text recommended_command path told in
      if tabs then at_place redact_url target_urls path advised else advised

  unfoldable pub in_place : Value → Value
  in_place = redact_url_fields_in_place redact_url redact_urls_in_text

  in_field : Text → Value → Value
  in_field name (string url) = string (if is_url_name name then redact_url url else url)
  in_field name v = in_place v

  redact_fields-field :
      (name : Text) (v : Value) (rest : Fields)
      → redact_fields redact_url redact_urls_in_text (field name v rest)
        ≡ field name (in_field name v) (redact_fields redact_url redact_urls_in_text rest)
  unfolding redact_url_fields_in_place in_place in_field
  redact_fields-field name (string url) rest = refl
  redact_fields-field name null rest = refl
  redact_fields-field name (bool b) rest = refl
  redact_fields-field name (number n) rest = refl
  redact_fields-field name (array items) rest = refl
  redact_fields-field name (object fields) rest = refl

  field_at-redact_fields :
      (k : Text) (fields : Fields)
      → field_at k (redact_fields redact_url redact_urls_in_text fields)
        ≡ mapped (in_field k) (field_at k fields)
  unfolding field_at redact_url_fields_in_place
  field_at-redact_fields k end = refl
  field_at-redact_fields k (field n v rest) =
      rw (redact_fields-field n v rest) (elim (Bool-cases (text_eq n k)) [
        | inl own ↦ rw own (ap (λ (j : Text). some (in_field j v)) ((text_eq_iff n k).0 own))
        | inr other ↦ rw other (field_at-redact_fields k rest)
      ])

  item_at-redact_items :
      (i : ℕ) (items : Items)
      → item_at i (redact_items redact_url redact_urls_in_text items)
        ≡ mapped in_place (item_at i items)
  unfolding item_at redact_url_fields_in_place in_place
  item_at-redact_items i nil = refl
  item_at-redact_items i (item v rest) = elim (Bool-cases (i == 0)) [
    | inl now ↦ rw now refl
    | inr later ↦ rw later (item_at-redact_items (i - 1) rest)
  ]

  leaf_at-in_field :
      (name : Text) (path : List Step) (v : Value)
      → leaf_at path (in_place v) ≡ mapped (at_name path) (leaf_at path v)
      → leaf_at path (in_field name v) ≡ mapped (at_name (key name ∷ path)) (leaf_at path v)
  unfolding leaf_at in_place in_field redact_url_fields_in_place
  leaf_at-in_field name [] (string url) e = elim (Bool-cases (is_url_name name)) [
    | inl secret ↦ rw secret refl
    | inr plain ↦ rw plain refl
  ]
  leaf_at-in_field name [] (object fields) e = refl
  leaf_at-in_field name [] (array items) e = refl
  leaf_at-in_field name [] v e = ap (λ (x : Value). some x) (either_same (is_url_name name) v)
  leaf_at-in_field name (key k ∷ path) (string url) e = refl
  leaf_at-in_field name (index i ∷ path) (string url) e = refl
  leaf_at-in_field name (s ∷ path) v e = e

  leaf_at-in_item :
      (i : ℕ) (path : List Step) (v : Value)
      → leaf_at path (in_place v) ≡ mapped (at_name path) (leaf_at path v)
      → leaf_at path (in_place v) ≡ mapped (at_name (index i ∷ path)) (leaf_at path v)
  leaf_at-in_item i [] v e = e
  leaf_at-in_item i (s ∷ path) v e = e

  leaf_at-in_place :
      (path : List Step) (v : Value)
      → leaf_at path (in_place v) ≡ mapped (at_name path) (leaf_at path v)
  unfolding leaf_at in_place redact_url_fields_in_place
  leaf_at-in_place [] (object fields) = refl
  leaf_at-in_place [] (array items) = refl
  leaf_at-in_place [] v = mapped_same (scalar v) (λ x. x) (λ x. refl)
  leaf_at-in_place (key k ∷ path) (object fields) = rw (field_at-redact_fields k fields) (
      through (in_field k) (at_name (key k ∷ path)) path (field_at k fields)
        (λ v. leaf_at-in_field k path v (leaf_at-in_place path v)))
  leaf_at-in_place (index i ∷ path) (array items) = rw (item_at-redact_items i items) (
      through in_place (at_name (index i ∷ path)) path (item_at i items)
        (λ v. leaf_at-in_item i path v (leaf_at-in_place path v)))
  leaf_at-in_place (key k ∷ path) (array items) = refl
  leaf_at-in_place (index i ∷ path) (object fields) = refl
  leaf_at-in_place (key k ∷ path) _ = refl
  leaf_at-in_place (index i ∷ path) _ = refl

  -- The masking of an event that is not a captured answer.
  unfoldable pub prose : Value → Value
  prose = redact_envelope_prose redact_url redact_urls_in_text

  told : Value → Value
  told v =
      change redact_urls_in_text recommended_command
        (change redact_urls_in_text warning_details (in_place v))

  told_mask : List Step → Value → Value
  told_mask path v =
      at_place redact_urls_in_text recommended_command path
        (at_place redact_urls_in_text warning_details path (at_name path v))

  leaf_at-told :
      (path : List Step) (v : Value)
      → leaf_at path (told v) ≡ mapped (told_mask path) (leaf_at path v)
  unfolding told told_mask
  leaf_at-told path v =
      let warned = at_place redact_urls_in_text warning_details path in
      let advised = at_place redact_urls_in_text recommended_command path in
      leaf_at-change redact_urls_in_text recommended_command path _
      ∙ ap (mapped advised) (
          leaf_at-change redact_urls_in_text warning_details path (in_place v)
          ∙ ap (mapped warned) (leaf_at-in_place path v))
      ∙ ap (mapped advised) (mapped-mapped warned (at_name path) (leaf_at path v))
      ∙ mapped-mapped advised (λ x. warned (at_name path x)) (leaf_at path v)

  told-code : (t : Text) (v : Value) → has_code t (told v) ≡ has_code t v
  unfolding told_mask text_eq ends_with
  told-code t v = has_code-leaf t v (told v) (
      leaf_at-told (key (codes "code") ∷ []) v
      ∙ sym (mapped_same (leaf_at (key (codes "code") ∷ []) v) _ (λ x. refl)))

  after_tabs :
      (b : Bool) (path : List Step) (v : Value)
      → leaf_at path (if b then change redact_url target_urls (told v) else told v)
        ≡ mapped (own_mask b path) (leaf_at path v)
  unfolding told_mask
  after_tabs true path v =
      leaf_at-change redact_url target_urls path (told v)
      ∙ ap (mapped (at_place redact_url target_urls path)) (leaf_at-told path v)
      ∙ mapped-mapped (at_place redact_url target_urls path) (told_mask path) (leaf_at path v)
  after_tabs false path v = leaf_at-told path v

  pub own_leaf :
      (path : List Step) (v : Value)
      → leaf_at path (prose (in_place v))
        ≡ mapped (own_mask (has_code (codes "tabs") v) path) (leaf_at path v)
  unfolding prose redact_envelope_prose told
  own_leaf path v =
      after_tabs (has_code (codes "tabs") (told v)) path v
      ∙ ap (λ (b : Bool). mapped (own_mask b path) (leaf_at path v)) (told-code (codes "tabs") v)

  pub prose-object : (v : Value) → is_object (prose v) ≡ is_object v
  unfolding prose redact_envelope_prose
  prose-object v =
      let warned = change redact_urls_in_text warning_details v in
      let advised = change redact_urls_in_text recommended_command warned in
      tabs-object redact_url (has_code (codes "tabs") advised) advised
      ∙ change-object redact_urls_in_text (codes "next_action") _ warned
      ∙ change-object redact_urls_in_text (codes "warnings") _ v

  pub in_place-object : (v : Value) → is_object (in_place v) ≡ is_object v
  unfolding in_place redact_url_fields_in_place
  in_place-object (object fields) = refl
  in_place-object (array items) = refl
  in_place-object _ = refl
