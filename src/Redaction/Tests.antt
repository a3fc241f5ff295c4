-- ===== src/Redaction/Tests.antt =====
-- Events before they are written.
use agent_first_http.Prelude.{
  Text, codes, ◌≡◌, refl, some, List, [], ◌∷◌, ◌++◌, text_eq, ends_with, mapped,
}
use agent_first_http.Redaction.Values.{
  Value, string, object, end, field, field_at, remove_field, get_key, has_code, change, raw_capture,
  redact_url_fields_in_place, redact_envelope_prose, redact_url_fields, without_result, with_result,
}
use agent_first_http.Redaction.Leaves.{Step, key, leaf_at, child_at, item_at}
use agent_first_http.Redaction.Captures.{mask, redact_url_fields-leaf}

abbrev marked : Text → Text
marked t = codes "***" ++ t

abbrev captured_event : Value
captured_event = object (
    field (codes "code") (string (codes "cdp")) (
      field (codes "result") (object (field (codes "next_url") (string (codes "a")) end))
        (field (codes "final_url") (string (codes "b")) end)))

abbrev to_answer : List Step
to_answer = key (codes "result") ∷ key (codes "next_url") ∷ []

abbrev to_final : List Step
to_final = key (codes "final_url") ∷ []

answer_kept :
    leaf_at to_answer (redact_url_fields marked marked captured_event) ≡ some (string (codes "a"))
unfolding leaf_at child_at item_at redact_url_fields raw_capture has_code get_key field_at
    remove_field without_result with_result redact_envelope_prose redact_url_fields_in_place change
    text_eq ends_with
answer_kept = refl

redact_url_fields-leaf_example :
    leaf_at to_final (redact_url_fields marked marked captured_event)
    ≡ mapped (mask marked marked captured_event to_final) (leaf_at to_final captured_event)
redact_url_fields-leaf_example = redact_url_fields-leaf marked marked to_final captured_event
