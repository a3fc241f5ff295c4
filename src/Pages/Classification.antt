-- ===== src/Pages/Classification.antt =====
-- sdk/fetch/page_classification.rs, and the checks of sdk/fetch/pipeline/http_only.rs on an HTTP body:
-- pages that load but are not the content that was asked for. The HTML parser is an argument.
use agent_first_http.Prelude.{
  ℕ, zero, suc, ◌-◌, Text, codes, Bool, true, false, not, ◌&&◌, ◌||◌, Option, none, some, List, [],
  ◌∷◌, ◌++◌, ltb, leb, ◌==◌, if◌then◌else◌, length, any, starts_with, contains, to_ascii_lowercase,
}
use agent_first_http.Errors.{ErrorCode, bot_wall_detected, security_challenge_detected}

-- `char::is_whitespace`
unfoldable pub is_whitespace : ℕ → Bool
is_whitespace c =
    (leb 9 c && leb c 13)
    || (c == 32
        || (c == 0x85
            || (c == 0xa0
                || (c == 0x1680
                    || ((leb 0x2000 c && leb c 0x200a)
                        || (c == 0x2028
                            || (c == 0x2029 || (c == 0x202f || (c == 0x205f || c == 0x3000)))))))))

unfoldable pub trim_start : Text → Text
unfolding is_whitespace
trim_start [] = []
trim_start (c ∷ s) = if is_whitespace c then trim_start s else c ∷ s

pub data PageKind : Type 0 where
  bot_wall security_challenge : PageKind

-- `detail` is left out.
pub record PageClassification : Type 0 where
  pub kind : PageKind
  pub code : ErrorCode

pub record DocumentCopy : Type 0 where
  pub title : Text
  pub text : Text

abbrev pub challenge_phrases : List Text
challenge_phrases =
    codes "checking your browser"
    ∷ codes "just a moment"
    ∷ codes "verify you are human"
    ∷ codes "verifying you are human"
    ∷ codes "review the security of your connection"
    ∷ []

-- `challenge_copy`
unfoldable pub challenge_copy : Text → Bool
challenge_copy value = any (λ phrase. contains value phrase) challenge_phrases

unfoldable pub cloudflare_marker : Text → Bool
cloudflare_marker html =
    contains html (codes "cloudflare")
    || (contains html (codes "_cf_chl")
        || (contains html (codes "cf-chl") || contains html (codes "cf-turnstile")))

unfoldable pub challenge_document : Text → Text → Bool
challenge_document html copy =
    leb (length copy) 1200
    && (challenge_copy copy
        && (any (λ phrase. starts_with phrase (trim_start copy)) challenge_phrases
            || (contains html (codes "_cf_chl") || contains html (codes "cf-chl"))))

unfoldable pub browser_check_document : Text → Bool
browser_check_document copy =
    leb (length copy) 1200
    && (starts_with (codes "hang tight") (trim_start copy)
        && contains copy (codes "we are checking your browser"))

unfoldable pub access_denied : Text → Bool
access_denied lower =
    contains lower (codes "access denied")
    || (contains lower (codes "request blocked")
        || (contains lower (codes "you have been blocked")
            || contains lower (codes "unusual traffic")))

unfoldable pub challenge_marker : Text → Text → Bool
challenge_marker html lower =
    contains lower (codes "captcha")
    || (contains html (codes "challenge-platform")
        || (contains lower (codes "security check")
            || contains lower (codes "verify that you are not a robot")))

-- The tests, on the lower-case document, its copy and its title.
unfoldable pub classify_copy : Text → Text → Text → Option PageClassification
classify_copy html copy title =
    let lower = title ++ b'\n' ∷ copy in
    if browser_check_document copy
      || (cloudflare_marker html && (challenge_copy title || challenge_document html copy))
    then some (record { kind = bot_wall; code = bot_wall_detected })
    else if access_denied lower
        && (challenge_marker html lower || contains lower (codes "reference #"))
    then some (record { kind = security_challenge; code = security_challenge_detected })
    else none

abbrev pub text_or : Option Text → Text → Text
text_or none d = d
text_or (some s) d = s

unfoldable pub classify :
    (Text → DocumentCopy) → Option Text → Option Text → Option Text → Option PageClassification
unfolding classify_copy
classify html_copy html text title =
    let lower_html = to_ascii_lowercase (text_or html []) in
    let document = html_copy lower_html in
    classify_copy lower_html (to_ascii_lowercase (text_or text document.text))
      (to_ascii_lowercase (text_or title document.title))

-- A response body: how many bytes, and the text if it is UTF-8.
pub record Body : Type 0 where
  pub len : ℕ
  pub utf8 : Option Text

unfoldable pub is_html : Option Text → Bool
is_html content_type =
    let ct = to_ascii_lowercase (text_or content_type []) in
    starts_with (codes "text/html") ct || contains ct (codes "application/xhtml")

abbrev pub classify_text : (Text → DocumentCopy) → Option Text → Option PageClassification
classify_text html_copy none = none
classify_text html_copy (some html) = classify html_copy (some html) none none

unfoldable pub classify_http_body :
    (Text → DocumentCopy) → Body → Option Text → Option PageClassification
classify_http_body html_copy body content_type =
    if is_html content_type then classify_text html_copy body.utf8 else none

-- Where the scan of `count_visible_chars_after` is: how many characters it has jumped over, the text
-- that ends a skipped element, whether it is inside a tag, and the count.
unfoldable pub visible_chars : ℕ → Option Text → Bool → ℕ → Text → ℕ
unfolding is_whitespace
visible_chars jump skip in_tag visible [] = visible
visible_chars (suc jump) skip in_tag visible (c ∷ s) = visible_chars jump skip in_tag visible s
visible_chars zero (some needle) in_tag visible (c ∷ s) =
    if starts_with needle (c ∷ s)
    then visible_chars (length needle - 1) none in_tag visible s
    else visible_chars zero (some needle) in_tag visible s
visible_chars zero none true visible (c ∷ s) = visible_chars zero none (not (c == b'>')) visible s
visible_chars zero none false visible (c ∷ s) =
    if c == b'<'
    then (if starts_with (codes "<script") (c ∷ s)
        then visible_chars 6 (some (codes "</script>")) false visible s
        else if starts_with (codes "<style") (c ∷ s)
        then visible_chars 5 (some (codes "</style>")) false visible s
        else visible_chars zero none true visible s)
    else visible_chars zero none false (if is_whitespace c then visible else suc visible) s

-- The text from the first `<body` on, if there is one.
unfoldable pub from_body : Text → Option Text
from_body [] = none
from_body (c ∷ s) = if starts_with (codes "<body") (c ∷ s) then some (c ∷ s) else from_body s

abbrev pub count_from : Option Text → ℕ
count_from none = 0
count_from (some s) = visible_chars 0 none false 0 s

unfoldable pub looks_like_empty_html_shell : Body → Option Text → Bool
looks_like_empty_html_shell body content_type =
    let lower = to_ascii_lowercase (text_or body.utf8 []) in
    is_html content_type
    && (leb body.len 32768
        && (contains lower (codes "<script") && ltb (count_from (from_body lower)) 200))
