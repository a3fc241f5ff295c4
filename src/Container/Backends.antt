-- ===== src/Container/Backends.antt =====
-- cli/cmd/container.rs: the optional backends of an image, and those that a person can take over.
use agent_first_http.Prelude.{
  Text, codes, Bool, Option, none, some, List, [], ◌∷◌, ◌++◌, if◌then◌else◌, text_eq, any, keep,
  find_first, member, text_keys,
}

pub data Backend : Type 0 where
  lightpanda fingerprint_chromium camoufox chrome brave kasmvnc : Backend

abbrev pub backend_name : Backend → Text
backend_name lightpanda = codes "lightpanda"
backend_name fingerprint_chromium = codes "fingerprint-chromium"
backend_name camoufox = codes "camoufox"
backend_name chrome = codes "chrome"
backend_name brave = codes "brave"
backend_name kasmvnc = codes "kasmvnc"

abbrev pub build_arg : Backend → Text
build_arg lightpanda = codes "WITH_LIGHTPANDA"
build_arg fingerprint_chromium = codes "WITH_FINGERPRINT_CHROMIUM"
build_arg camoufox = codes "WITH_CAMOUFOX"
build_arg chrome = codes "WITH_CHROME"
build_arg brave = codes "WITH_BRAVE"
build_arg kasmvnc = codes "WITH_KASMVNC"

-- `BACKENDS`
abbrev pub all_backends : List Backend
all_backends = lightpanda ∷ fingerprint_chromium ∷ camoufox ∷ chrome ∷ brave ∷ kasmvnc ∷ []

-- `backends.iter().any(|b| b.name == name)`
unfoldable pub has_named : Text → List Backend → Bool
has_named name backends = any (λ b. text_eq (backend_name b) name) backends

unfoldable pub find_backend : Text → Option Backend
find_backend name = find_first (λ b. text_eq (backend_name b) name) all_backends

-- One name of `resolve_backends`: two backends are equal if their names are.
unfoldable pub add_backend : List Backend → Option Backend → List Backend
unfolding has_named
add_backend out none = out
add_backend out (some b) = if has_named (backend_name b) out then out else out ++ (b ∷ [])

unfoldable pub resolve_from : List Backend → List Text → List Backend
unfolding add_backend find_backend
resolve_from out [] = out
resolve_from out (name ∷ names) = resolve_from (add_backend out (find_backend name)) names

abbrev pub resolve_backends : List Text → List Backend
resolve_backends names = resolve_from [] names

pub record TakeoverBackend : Type 0 where
  pub browser : Text
  pub component : Backend
  pub probe_bin : Text

abbrev pub brave_takeover : TakeoverBackend
brave_takeover = record {
  browser = codes "brave";
  component = brave;
  probe_bin = codes "brave-browser";
}

abbrev pub chrome_takeover : TakeoverBackend
chrome_takeover = record {
  browser = codes "chrome";
  component = chrome;
  probe_bin = codes "google-chrome-stable";
}

-- `TAKEOVER_BACKENDS`
abbrev pub takeover_backends : List TakeoverBackend
takeover_backends = brave_takeover ∷ chrome_takeover ∷ []

unfoldable pub takeover_backend : Text → Option TakeoverBackend
takeover_backend browser = find_first (λ b. text_eq b.browser browser) takeover_backends

unfoldable pub push_backend_if_missing : List Text → Text → List Text
push_backend_if_missing backends backend =
    if member backend backends then backends else backends ++ (backend ∷ [])

abbrev image_suffix : List Backend → Text
image_suffix [] = []
image_suffix (b ∷ rest) = codes "-" ++ (backend_name b ++ image_suffix rest)

-- `version` is the one of the package.
unfoldable pub image_tag : Text → List Backend → Text
unfolding has_named
image_tag version backends =
    codes "afhttp-host:"
    ++ (version ++ image_suffix (keep (λ b. has_named (backend_name b) backends) all_backends))
