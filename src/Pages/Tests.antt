-- ===== src/Pages/Tests.antt =====
-- Pages at concrete inputs.
use agent_first_http.Errors.{bot_wall_detected}
use agent_first_http.Prelude.{
  ◌≡◌, refl, Text, codes, false, none, some, [], to_ascii_lowercase, contains, starts_with, text_eq,
  any,
}
use agent_first_http.Pages.Classification.{
  DocumentCopy, classify, access_denied, is_whitespace, trim_start, challenge_copy,
  cloudflare_marker, challenge_document, browser_check_document, visible_chars, bot_wall,
}
use agent_first_http.Pages.Wording.{Verdict, classify-Verdict}

abbrev plain_copy : Text → DocumentCopy
plain_copy html = record { title = []; text = html }

-- Without a marker of a vendor in the document, its words are no wall.
no_marker :
    classify plain_copy (some (codes "Just a moment")) none (some (codes "cloudflare")) ≡ none
unfolding classify access_denied to_ascii_lowercase cloudflare_marker challenge_copy
    challenge_document browser_check_document contains starts_with any trim_start text_eq
no_marker = refl

abbrev walled : Text
walled = codes "<title>Just a Moment...</title> cf-chl Checking your browser"

-- A wall, and a page that only asks to hang tight.
walls_tried :
    (classify plain_copy (some walled) (some (codes "Ray ID")) (some (codes "Just a moment..."))
      ≡ some (record { kind = bot_wall; code = bot_wall_detected }))
    × (classify plain_copy (some (codes "Hang tight")) none none ≡ none)
unfolding classify access_denied to_ascii_lowercase cloudflare_marker challenge_copy
    challenge_document browser_check_document contains starts_with any trim_start text_eq
walls_tried = (refl, refl)

classify-Verdict_example :
    Verdict
      (to_ascii_lowercase walled)
      (codes "ray id")
      (codes "just a moment...")
      (some (record { kind = bot_wall; code = bot_wall_detected }))
unfolding classify access_denied to_ascii_lowercase cloudflare_marker challenge_copy
    challenge_document browser_check_document contains starts_with any trim_start text_eq
classify-Verdict_example =
    classify-Verdict plain_copy (some walled) (some (codes "Ray ID"))
      (some (codes "Just a moment..."))

one_visible : visible_chars 0 none false 0 (codes "<script a>x<y</script>b ") ≡ 1
unfolding visible_chars starts_with is_whitespace
one_visible = refl
