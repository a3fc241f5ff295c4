-- ===== src/Redaction/Values.antt =====
-- shared/redact.rs: the masking of the URLs in the JSON values that are emitted. Of the redactor of
-- agent_first_data, what it makes of one URL and of prose are arguments.
use agent_first_http.Prelude.{
  Text, codes, Bool, false, ◌||◌, Option, none, some, if◌then◌else◌, text_eq, ends_with,
}

-- `serde_json::Value`; a number is kept as it is written.
mutual
  pub data Value : Type 0 where
    null : Value
    bool : Bool → Value
    number string : Text → Value
    array : Items → Value
    object : Fields → Value

  pub data Items : Type 0 where
    nil : Items
    item : Value → Items → Items

  pub data Fields : Type 0 where
    end : Fields
    field : Text → Value → Fields → Fields

-- `fields.get(k)`
unfoldable pub field_at : Text → Fields → Option Value
field_at k end = none
field_at k (field n v rest) = if text_eq n k then some v else field_at k rest

-- `fields.remove(k)`, without its result
unfoldable pub remove_field : Text → Fields → Fields
remove_field k end = end
remove_field k (field n v rest) =
    let others = remove_field k rest in if text_eq n k then others else field n v others

-- `value.get(k)`
unfoldable pub get_key : Text → Value → Option Value
unfolding field_at
get_key k (object fields) = field_at k fields
get_key k _ = none

abbrev pub is_string : Text → Option Value → Bool
is_string t (some (string s)) = text_eq s t
is_string t _ = false

-- `value.get("code").and_then(|code| code.as_str()) == Some(t)`
unfoldable pub has_code : Text → Value → Bool
unfolding get_key
has_code t v = is_string t (get_key (codes "code") v)

abbrev pub is_url_name : Text → Bool
is_url_name name = ends_with name (codes "_url") || ends_with name (codes "_URL")

-- The places that `redact_envelope_prose` reads: the value itself, what is under a key of an object, and
-- each item of an array.
pub data Place : Type 0 where
  here : Place
  under : Text → Place → Place
  each : Place → Place

-- What is done to a string.
abbrev pub on_string : (Text → Text) → Value → Value
on_string f (string t) = string (f t)
on_string f v = v

unfoldable mutual
  pub change : (Text → Text) → Place → Value → Value
  change f here v = on_string f v
  change f (under k place) (object fields) = object (change_field f k place fields)
  change f (under k place) v = v
  change f (each place) (array items) = array (change_items f place items)
  change f (each place) v = v

  pub change_field : (Text → Text) → Text → Place → Fields → Fields
  change_field f k place end = end
  change_field f k place (field n v rest) =
      let changed = change f place v in
      let others = change_field f k place rest in
      if text_eq n k then field n changed rest else field n v others

  pub change_items : (Text → Text) → Place → Items → Items
  change_items f place nil = nil
  change_items f place (item v rest) = item (change f place v) (change_items f place rest)

abbrev pub warning_details : Place
warning_details = under (codes "warnings") (each (under (codes "detail") here))

abbrev pub recommended_command : Place
recommended_command = under (codes "next_action") (under (codes "recommended_command") here)

abbrev pub target_urls : Place
target_urls = under (codes "targets") (each (under (codes "url") here))

-- The `result` of a `cdp` event, if there is one.
unfoldable pub raw_capture : Value → Option Value
unfolding has_code get_key
raw_capture v = if has_code (codes "cdp") v then get_key (codes "result") v else none

-- The value after `take_raw_capture` has lifted the `result` out, and with it again. The order of fields is
-- not read.
unfoldable pub without_result : Value → Value
unfolding remove_field
without_result (object fields) = object (remove_field (codes "result") fields)
without_result v = v

unfoldable pub with_result : Value → Value → Value
with_result raw (object fields) = object (field (codes "result") raw fields)
with_result raw v = v

module _ (redact_url redact_urls_in_text : Text → Text) where
  unfoldable mutual
    pub redact_url_fields_in_place : Value → Value
    redact_url_fields_in_place (object fields) = object (redact_fields fields)
    redact_url_fields_in_place (array items) = array (redact_items items)
    redact_url_fields_in_place v = v

    pub redact_fields : Fields → Fields
    redact_fields end = end
    redact_fields (field name (string url) rest) =
        field name (string (if is_url_name name then redact_url url else url)) (redact_fields rest)
    redact_fields (field name v rest) =
        field name (redact_url_fields_in_place v) (redact_fields rest)

    pub redact_items : Items → Items
    redact_items nil = nil
    redact_items (item v rest) = item (redact_url_fields_in_place v) (redact_items rest)

  unfoldable pub redact_envelope_prose : Value → Value
  unfolding change has_code
  redact_envelope_prose v =
      let told = change redact_urls_in_text warning_details v in
      let advised = change redact_urls_in_text recommended_command told in
      if has_code (codes "tabs") advised then change redact_url target_urls advised else advised

  unfoldable pub redact_url_fields : Value → Value
  unfolding raw_capture without_result with_result redact_url_fields_in_place redact_envelope_prose
  redact_url_fields v = elim (raw_capture v) [
    | none ↦ redact_envelope_prose (redact_url_fields_in_place v)
    | some raw ↦
        with_result raw (redact_envelope_prose (redact_url_fields_in_place (without_result v)))
  ]
