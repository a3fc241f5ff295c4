-- ===== src/Redaction/Headers.antt =====
-- shared/redact.rs: which headers carry credentials, and the masking of a map of headers
-- (`redact_inplace` of sdk/fetch/artifacts/collectors.rs).
use agent_first_http.Prelude.{
  Text, codes, Bool, true, ◌||◌, ◌≡◌, List, [], ◌∷◌, if◌then◌else◌, text_eq, any, ends_with,
  to_ascii_lowercase, All,
}

abbrev pub always_redacted : List Text
always_redacted =
    codes "cookie" ∷ codes "set-cookie" ∷ codes "authorization" ∷ codes "proxy-authorization" ∷ []

abbrev pub redacted_suffixes : List Text
redacted_suffixes = codes "-token" ∷ codes "-secret" ∷ []

unfoldable pub should_redact : Text → Bool
should_redact header_name =
    let lower = to_ascii_lowercase header_name in
    any (λ h. text_eq h lower) always_redacted
    || any (λ suffix. ends_with lower suffix) redacted_suffixes

abbrev pub redacted_value : Text
redacted_value = codes "[redacted]"

unfoldable pub redact_inplace : List (Text × Text) → List (Text × Text)
redact_inplace [] = []
redact_inplace ((name, value) ∷ rest) =
    (name, if should_redact name then redacted_value else value) ∷ redact_inplace rest

-- A header that may be written: one that carries no credential, or that is masked.
abbrev pub IsMasked : Text × Text → Type 0
IsMasked h = should_redact h.0 ≡ true → h.1 ≡ redacted_value

pub redact_inplace-IsMasked : (headers : List (Text × Text)) → All IsMasked (redact_inplace headers)
unfolding redact_inplace
redact_inplace-IsMasked [] = tt
redact_inplace-IsMasked ((name, value) ∷ rest) = (λ secret. rw secret, redact_inplace-IsMasked rest)
