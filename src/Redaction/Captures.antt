-- ===== src/Redaction/Captures.antt =====
-- Which strings of an event are masked, and that the answer of the browser stays as it was.
use agent_first_http.Prelude.{
  ℕ, Text, codes, Bool, true, false, ◌≡◌, refl, sym, ap, ◌∙◌, Option, none, some, List, [], ◌∷◌,
  inl, inr, if◌then◌else◌, text_eq, text_eq_iff, mapped, Bool-cases, Option-cases, subst,
}
use agent_first_http.Redaction.Values.{
  Value, object, Fields, field_at, remove_field, get_key, is_string, has_code, raw_capture,
  without_result, with_result, redact_url_fields,
}
use agent_first_http.Redaction.Leaves.{Step, key, index, scalar, and_then, leaf_at, mapped_same}
use agent_first_http.Redaction.Paths.{
  is_captured, is_object, leaf_at-with_result, field_at-remove_field,
}
use agent_first_http.Redaction.Masks.{
  own_mask, in_place, prose, own_leaf, prose-object, in_place-object,
}

module _ (redact_url redact_urls_in_text : Text → Text) where
  without : Fields → Value
  without fields = object (remove_field (codes "result") fields)

  without-code :
      (t : Text) (fields : Fields) → has_code t (without fields) ≡ has_code t (object fields)
  unfolding without has_code get_key text_eq
  without-code t fields =
      ap (is_string t) (field_at-remove_field (codes "result") (codes "code") fields refl)

  without_leaf :
      (k : Text) (path : List Step) (fields : Fields)
      → text_eq (codes "result") k ≡ false
      → leaf_at (key k ∷ path) (without fields) ≡ leaf_at (key k ∷ path) (object fields)
  unfolding without leaf_at
  without_leaf k path fields other =
      ap (and_then (leaf_at path)) (field_at-remove_field (codes "result") k fields other)

  -- The masked rest of a captured event, without the answer.
  masked_rest : Fields → Value
  masked_rest fields =
      (prose redact_url redact_urls_in_text)
        ((in_place redact_url redact_urls_in_text) (without fields))

  masked_rest-object : (fields : Fields) → is_object (masked_rest fields) ≡ true
  unfolding masked_rest without
  masked_rest-object fields =
      (prose-object redact_url redact_urls_in_text)
        ((in_place redact_url redact_urls_in_text) (without fields))
      ∙ (in_place-object redact_url redact_urls_in_text) (without fields)

  rest_leaf :
      (k : Text) (path : List Step) (fields : Fields)
      → text_eq (codes "result") k ≡ false
      → leaf_at (key k ∷ path) (masked_rest fields)
        ≡ mapped
            ((own_mask redact_url redact_urls_in_text)
              (has_code (codes "tabs") (object fields))
              (key k ∷ path))
            (leaf_at (key k ∷ path) (object fields))
  unfolding masked_rest
  rest_leaf k path fields other =
      (own_leaf redact_url redact_urls_in_text) (key k ∷ path) (without fields)
      ∙ ap (mapped _) (without_leaf k path fields other)
      ∙ ap
          (λ (b : Bool).
            mapped ((own_mask redact_url redact_urls_in_text) b (key k ∷ path))
              (leaf_at (key k ∷ path) (object fields)))
          (without-code (codes "tabs") fields)

  captured_key :
      (k : Text) (path : List Step) (fields : Fields) (raw : Value)
      → field_at (codes "result") fields ≡ some raw
      → leaf_at (key k ∷ path) (with_result raw (masked_rest fields))
        ≡ mapped
            (λ x.
              if text_eq (codes "result") k
              then x
              else (own_mask redact_url redact_urls_in_text)
                  (has_code (codes "tabs") (object fields))
                  (key k ∷ path)
                  x)
            (leaf_at (key k ∷ path) (object fields))
  unfolding leaf_at
  captured_key k path fields raw e =
      leaf_at-with_result raw k path (masked_rest fields) (masked_rest-object fields)
      ∙ elim (Bool-cases (text_eq (codes "result") k)) [
        | inl own ↦
            let found : field_at k fields ≡ some raw =
              subst (λ (j : Text). field_at j fields ≡ some raw)
                ((text_eq_iff (codes "result") k).0 own) e in
            rw own (rw found (mapped_same (leaf_at path raw) (λ x. x) (λ x. refl)))
        | inr other ↦ rw other (rest_leaf k path fields other)
      ]

  scalar-with_result : (raw v : Value) → is_object v ≡ true → scalar (with_result raw v) ≡ none
  unfolding with_result
  scalar-with_result raw (object fields) e = refl
  scalar-with_result raw _ e = cc

  index-with_result :
      (raw : Value) (i : ℕ) (path : List Step) (v : Value)
      → is_object v ≡ true
      → leaf_at (index i ∷ path) (with_result raw v) ≡ none
  unfolding with_result leaf_at
  index-with_result raw i path (object fields) e = refl
  index-with_result raw i path _ e = cc

  captured_leaf :
      (path : List Step) (v raw : Value)
      → get_key (codes "result") v ≡ some raw
      → leaf_at path (
          with_result raw (
            (prose redact_url redact_urls_in_text)
              ((in_place redact_url redact_urls_in_text) (without_result v))))
        ≡ mapped
            (λ x.
              if is_captured true path
              then x
              else (own_mask redact_url redact_urls_in_text) (has_code (codes "tabs") v) path x)
            (leaf_at path v)
  unfolding get_key without_result leaf_at masked_rest without
  captured_leaf [] (object fields) raw e =
      scalar-with_result raw (masked_rest fields) (masked_rest-object fields)
  captured_leaf (key k ∷ path) (object fields) raw e = captured_key k path fields raw e
  captured_leaf (index i ∷ path) (object fields) raw e =
      index-with_result raw i path (masked_rest fields) (masked_rest-object fields)
  captured_leaf path _ raw e = cc

  -- What is done to the string at a path of an event.
  abbrev pub mask : Value → List Step → Value → Value
  mask v path x =
      if is_captured (has_code (codes "cdp") v) path
      then x
      else (own_mask redact_url redact_urls_in_text) (has_code (codes "tabs") v) path x

  uncaptured :
      (cdp : Bool) (path : List Step) (v : Value) (own : Value → Value)
      → (if cdp then get_key (codes "result") v else none) ≡ none
      → mapped own (leaf_at path v)
        ≡ mapped (λ x. if is_captured cdp path then x else own x) (leaf_at path v)
  unfolding leaf_at get_key
  uncaptured cdp [] v own e = refl
  uncaptured cdp (index i ∷ path) v own e = refl
  uncaptured false (key k ∷ path) v own e = refl
  uncaptured true (key k ∷ path) (object fields) own e =
      elim (Bool-cases (text_eq (codes "result") k)) [
        | inl hit ↦
            let absent : field_at k fields ≡ none =
              subst (λ (j : Text). field_at j fields ≡ none)
                ((text_eq_iff (codes "result") k).0 hit) e in
            rw absent refl
        | inr miss ↦ rw miss refl
      ]
  uncaptured true (key k ∷ path) _ own e = refl

  captured_of :
      (b : Bool) (o : Option Value) (raw : Value)
      → (if b then o else none) ≡ some raw
      → (b ≡ true) × (o ≡ some raw)
  captured_of true o raw e = (refl, e)
  captured_of false o raw e = cc

  -- Masking an event changes its strings alone, and of those: one under a key that names a URL is
  -- redacted as a URL; the details of warnings and the recommended command are redacted as prose; and the
  -- URLs of the targets of a `tabs` event as URLs. What is within the `result` of a `cdp` event stays as
  -- it was, whatever the keys in it.
  pub redact_url_fields-leaf :
      (path : List Step) (v : Value)
      → leaf_at path (redact_url_fields redact_url redact_urls_in_text v)
        ≡ mapped (mask v path) (leaf_at path v)
  unfolding redact_url_fields raw_capture prose in_place
  redact_url_fields-leaf path v = elim (Option-cases (raw_capture v)) [
    | inl e ↦
        rw (e, redact_url_fields)
          ((own_leaf redact_url redact_urls_in_text) path v
            ∙ uncaptured (has_code (codes "cdp") v) path v _ e)
    | inr (raw, e) ↦
        let (cdp, found) =
          captured_of (has_code (codes "cdp") v) (get_key (codes "result") v) raw e in
        rw (e, redact_url_fields)
          (captured_leaf path v raw found
            ∙ ap
                (λ (b : Bool).
                  mapped
                    (λ x.
                      if is_captured b path
                      then x
                      else (own_mask redact_url redact_urls_in_text) (has_code (codes "tabs") v)
                          path x)
                    (leaf_at path v))
                (sym cdp))
  ]
