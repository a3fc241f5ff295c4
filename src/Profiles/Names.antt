-- ===== src/Profiles/Names.antt =====
-- sdk/profile/paths.rs: which names a profile may have, and where its directory is.
use agent_first_http.Prelude.{
  ℕ, Text, codes, Bool, true, not, ◌&&◌, ◌||◌, List, [], ◌∷◌, ◌++◌, ltb, leb, ◌==◌, if◌then◌else◌,
  length, any, text_eq, starts_with_char, ends_with_char, to_ascii_lowercase, member, text_keys,
}
use agent_first_http.Errors.{new, profile_invalid_name, invalid_argument, Result, ok, err, ◌>>◌}
use agent_first_http.Listener.Requests.{until_char}

-- `c.is_ascii_alphanumeric()`
unfoldable pub is_alphanumeric : ℕ → Bool
is_alphanumeric c =
    (leb b'0' c && leb c b'9') || ((leb b'A' c && leb c b'Z') || (leb b'a' c && leb c b'z'))

unfoldable pub is_name_char : ℕ → Bool
unfolding is_alphanumeric
is_name_char c = is_alphanumeric c || (c == b'-' || (c == b'_' || c == b'.'))

unfoldable pub all_name_chars : Text → Bool
unfolding is_name_char
all_name_chars [] = true
all_name_chars (c ∷ s) = is_name_char c && all_name_chars s

abbrev pub reserved : List Text
reserved =
    codes "con"
    ∷ codes "prn"
    ∷ codes "aux"
    ∷ codes "nul"
    ∷ codes "com1"
    ∷ codes "com2"
    ∷ codes "com3"
    ∷ codes "com4"
    ∷ codes "com5"
    ∷ codes "com6"
    ∷ codes "com7"
    ∷ codes "com8"
    ∷ codes "com9"
    ∷ codes "lpt1"
    ∷ codes "lpt2"
    ∷ codes "lpt3"
    ∷ codes "lpt4"
    ∷ codes "lpt5"
    ∷ codes "lpt6"
    ∷ codes "lpt7"
    ∷ codes "lpt8"
    ∷ codes "lpt9"
    ∷ []

-- The part before the first dot, in lower case, is the name of a device.
unfoldable pub is_windows_reserved : Text → Bool
is_windows_reserved name = any (text_eq (to_ascii_lowercase (until_char b'.' name))) reserved

-- The length is that of an ASCII name: any other is refused for its characters.
unfoldable pub validate_name : Text → Result (Unit {0})
unfolding all_name_chars is_windows_reserved
validate_name name =
    if length name == 0
    then err (new profile_invalid_name)
    else if ltb 64 (length name)
    then err (new profile_invalid_name)
    else if starts_with_char name b'.'
    then err (new profile_invalid_name)
    else if ends_with_char name b'.'
    then err (new profile_invalid_name)
    else if not (all_name_chars name)
    then err (new profile_invalid_name)
    else if is_windows_reserved name
    then err (new profile_invalid_name)
    else ok tt

abbrev pub known_backends : List Text
known_backends =
    codes "chromium"
    ∷ codes "chrome"
    ∷ codes "fingerprint-chromium"
    ∷ codes "edge"
    ∷ codes "brave"
    ∷ codes "lightpanda"
    ∷ codes "camoufox"
    ∷ []

unfoldable pub validate_backend_key : Text → Result (Unit {0})
validate_backend_key backend =
    if member backend known_backends then ok tt else err (new invalid_argument)

-- `root.join(name)` on Unix
unfoldable pub join : Text → Text → Text
join root name =
    if starts_with_char name b'/'
    then name
    else if length root == 0 || ends_with_char root b'/'
    then root ++ name
    else root ++ b'/' ∷ name

unfoldable pub join_root_name : Text → Text → Result Text
join_root_name root name = validate_name name >> ok (join root name)

unfoldable pub join_root_backend_name : Text → Text → Text → Result Text
join_root_backend_name root backend name =
    validate_backend_key backend >> (validate_name name >> ok (join (join root backend) name))
