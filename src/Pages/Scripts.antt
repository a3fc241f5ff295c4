-- ===== src/Pages/Scripts.antt =====
-- What stands inside a script or a style is not counted as visible.
use agent_first_http.Pages.Phrases.{starts_with-append}
use agent_first_http.Prelude.{
  ℕ, ◌-◌, ◌≡◌, refl, ap, ◌∙◌, Text, codes, false, Option, none, some, [], ◌∷◌, ◌++◌, length,
  starts_with, arith,
}
use agent_first_http.Pages.Classification.{visible_chars}

-- The end tag does not begin before the end of a body.
abbrev pub EndsAt : Text → Text → Text → Type 0
EndsAt end_tag [] after = Unit
EndsAt end_tag (c ∷ body) after =
    (starts_with end_tag ((c ∷ body) ++ after) ≡ false) × EndsAt end_tag body after

-- A jump over a text.
jump_over :
    (s rest : Text) (skip : Option Text) (visible : ℕ)
    → visible_chars (length s) skip false visible (s ++ rest)
      ≡ visible_chars 0 skip false visible rest
unfolding visible_chars
jump_over [] rest skip visible = refl
jump_over (c ∷ s) rest skip visible = jump_over s rest skip visible

-- The scan of an element that is left out ends behind its end tag.
skip_to_end :
    (e : ℕ) (es body rest : Text) (visible : ℕ)
    → EndsAt (e ∷ es) body ((e ∷ es) ++ rest)
    → visible_chars 0 (some (e ∷ es)) false visible (body ++ ((e ∷ es) ++ rest))
      ≡ visible_chars 0 none false visible rest
unfolding visible_chars
skip_to_end e es [] rest visible h =
    let shorter : length (e ∷ es) - 1 ≡ length es = omega arith in
    rw (starts_with-append (e ∷ es) rest) (
      ap (λ (n : ℕ). visible_chars n none false visible (es ++ rest)) shorter
      ∙ jump_over es rest none visible)
skip_to_end e es (c ∷ body) rest visible h = rw (h.0) (skip_to_end e es body rest visible h.1)

-- The elements that the count leaves out, with the beginnings of their start tags.
pub data Element : Type 0 where
  script style : Element

abbrev pub open_tag : Element → Text
open_tag script = codes "<script"
open_tag style = codes "<style"

abbrev pub end_tag : Element → Text
end_tag script = codes "</script>"
end_tag style = codes "</style>"

-- Outside a tag, a script or style element adds nothing to the count of visible characters, whatever
-- its attributes and its content, up to the first end tag.
pub visible_chars-skipped :
    (element : Element) (body rest : Text) (visible : ℕ)
    → EndsAt (end_tag element) body (end_tag element ++ rest)
    → visible_chars 0 none false visible (open_tag element ++ (body ++ (end_tag element ++ rest)))
      ≡ visible_chars 0 none false visible rest
unfolding visible_chars starts_with
visible_chars-skipped script body rest visible h =
    skip_to_end b'<' (codes "/script>") body rest visible h
visible_chars-skipped style body rest visible h =
    skip_to_end b'<' (codes "/style>") body rest visible h
