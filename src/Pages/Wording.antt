-- ===== src/Pages/Wording.antt =====
-- Which pages are walls and challenges, said of the words on them.
use agent_first_http.Prelude.{
  ◌≡◌, ◌↔◌, refl, ◌⊎◌, inl, inr, ◌≤◌, Text, codes, Bool, true, false, ◌&&◌, ◌||◌, Option, none,
  some, [], ◌∷◌, ◌++◌, if_intro, arith, to_ascii_lowercase, leb, length, any, contains, starts_with,
}
use agent_first_http.Errors.{bot_wall_detected, security_challenge_detected}
use agent_first_http.Pages.Classification.{
  PageClassification, DocumentCopy, bot_wall, security_challenge, challenge_phrases, challenge_copy,
  cloudflare_marker, challenge_document, browser_check_document, access_denied, challenge_marker,
  classify_copy, classify, text_or, is_whitespace, trim_start,
}
use agent_first_http.Pages.Phrases.{
  Says, OpensWith, Has, any-Has, All-each, All-map, contains-Says, IsPhrase, starts_with-OpensWith,
}

-- The document bears a mark of the vendor of a wall.
abbrev pub IsMarked : Text → Type 0
IsMarked html =
    Says html (codes "cloudflare")
    ⊎ (Says html (codes "_cf_chl")
        ⊎ (Says html (codes "cf-chl") ⊎ Says html (codes "cf-turnstile")))

abbrev pub AsksToWait : Text → Type 0
AsksToWait t = Has (Says t) challenge_phrases

-- A short page that opens with the request to hang tight.
abbrev pub IsBrowserCheck : Text → Type 0
IsBrowserCheck copy =
    (length copy ≤ 1200)
    × (OpensWith copy (codes "hang tight") × Says copy (codes "we are checking your browser"))

-- A short page that asks to wait, and either opens with that or has the script of a challenge.
abbrev pub IsChallenge : Text → Text → Type 0
IsChallenge html copy =
    (length copy ≤ 1200)
    × (AsksToWait copy
        × (Has (OpensWith copy) challenge_phrases
            ⊎ (Says html (codes "_cf_chl") ⊎ Says html (codes "cf-chl"))))

abbrev pub IsWall : Text → Text → Text → Type 0
IsWall html copy title =
    IsBrowserCheck copy ⊎ (IsMarked html × (AsksToWait title ⊎ IsChallenge html copy))

abbrev pub SaysDenied : Text → Type 0
SaysDenied t =
    Says t (codes "access denied")
    ⊎ (Says t (codes "request blocked")
        ⊎ (Says t (codes "you have been blocked") ⊎ Says t (codes "unusual traffic")))

-- The page says that access is denied, and has a word or a script of a challenge beside it.
abbrev pub IsDenial : Text → Text → Type 0
IsDenial html t =
    SaysDenied t
    × ((Says t (codes "captcha")
          ⊎ (Says html (codes "challenge-platform")
              ⊎ (Says t (codes "security check")
                  ⊎ Says t (codes "verify that you are not a robot"))))
        ⊎ Says t (codes "reference #"))

-- What a page with these words is said to be: one of the three, and no other.
pub data Verdict (html copy title : Text) : Option PageClassification → Type 0 where
  wall :
      IsWall html copy title
      → Verdict html copy title (some (record { kind = bot_wall; code = bot_wall_detected }))
  denial :
      ¬ IsWall html copy title
      → IsDenial html (title ++ b'\n' ∷ copy)
      → Verdict html copy title
          (some (record { kind = security_challenge; code = security_challenge_detected }))
  content :
      ¬ IsWall html copy title
      → ¬ IsDenial html (title ++ b'\n' ∷ copy)
      → Verdict html copy title none

-- Tests that are joined decide what is joined.
or_iff : {P Q : Type 0} (a b : Bool) → (a ≡ true) ↔ P → (b ≡ true) ↔ Q → ((a || b) ≡ true) ↔ (P ⊎ Q)
or_iff true b p q = (λ _. inl (p.0 refl), λ _. refl)
or_iff false b p q =
    (λ e. inr (q.0 e), λ w. elim w [ inl x ↦ absurd (ground (arith, p.1 x)) | inr y ↦ q.1 y ])

and_iff :
    {P Q : Type 0} (a b : Bool) → (a ≡ true) ↔ P → (b ≡ true) ↔ Q → ((a && b) ≡ true) ↔ (P × Q)
and_iff true b p q = (λ e. (p.0 refl, q.0 e), λ w. q.1 w.1)
and_iff false b p q = (λ e. cc, λ w. p.1 w.0)

not_so : {P : Type 0} (b : Bool) → (b ≡ true) ↔ P → b ≡ false → ¬ P
not_so b h f = λ p. absurd (ground (arith, h.1 p, f))

module _ (t : Text) where
  short_iff : (leb (length t) 1200 ≡ true) ↔ (length t ≤ 1200)
  short_iff = (λ e. ground arith, λ h. ground arith)

  challenge_copy_iff : (challenge_copy t ≡ true) ↔ AsksToWait t
  unfolding challenge_copy
  challenge_copy_iff =
      any-Has _ (Says t) challenge_phrases (All-each challenge_phrases (contains-Says t))

  cloudflare_marker_iff : (cloudflare_marker t ≡ true) ↔ IsMarked t
  unfolding cloudflare_marker
  cloudflare_marker_iff =
      or_iff _ _ (contains-Says t _)
        (or_iff _ _ (contains-Says t _) (or_iff _ _ (contains-Says t _) (contains-Says t _)))

  access_denied_iff : (access_denied t ≡ true) ↔ SaysDenied t
  unfolding access_denied
  access_denied_iff =
      or_iff _ _ (contains-Says t _)
        (or_iff _ _ (contains-Says t _) (or_iff _ _ (contains-Says t _) (contains-Says t _)))

  browser_check_document_iff : (browser_check_document t ≡ true) ↔ IsBrowserCheck t
  unfolding browser_check_document is_whitespace
  browser_check_document_iff =
      and_iff _ _ short_iff
        (and_iff _ _ (starts_with-OpensWith t (codes "hang tight") refl) (contains-Says t _))

  opens_iff :
      (any (λ phrase. starts_with phrase (trim_start t)) challenge_phrases ≡ true)
      ↔ Has (OpensWith t) challenge_phrases
  unfolding is_whitespace
  opens_iff = any-Has _ (OpensWith t) challenge_phrases (
      All-map {P = IsPhrase} challenge_phrases (starts_with-OpensWith t)
        (refl, (refl, (refl, (refl, (refl, tt))))))

module _ (html copy title : Text) where
  challenge_document_iff : (challenge_document html copy ≡ true) ↔ IsChallenge html copy
  unfolding challenge_document
  challenge_document_iff = and_iff _ _ (short_iff copy) (
      and_iff _ _ (challenge_copy_iff copy)
        (or_iff _ _ (opens_iff copy) (or_iff _ _ (contains-Says html _) (contains-Says html _))))

  IsWall-iff :
      ((browser_check_document copy
          || (cloudflare_marker html && (challenge_copy title || challenge_document html copy)))
        ≡ true)
      ↔ IsWall html copy title
  IsWall-iff = or_iff _ _ (browser_check_document_iff copy) (
      and_iff _ _ (cloudflare_marker_iff html)
        (or_iff _ _ (challenge_copy_iff title) challenge_document_iff))

  IsDenial-iff :
      (t : Text)
      → ((access_denied t && (challenge_marker html t || contains t (codes "reference #"))) ≡ true)
        ↔ IsDenial html t
  unfolding challenge_marker
  IsDenial-iff t = and_iff _ _ (access_denied_iff t) (
      or_iff _ _
        (or_iff _ _ (contains-Says t _)
          (or_iff _ _ (contains-Says html _) (or_iff _ _ (contains-Says t _) (contains-Says t _))))
        (contains-Says t _))

  classify_copy-Verdict : Verdict html copy title (classify_copy html copy title)
  unfolding classify_copy
  classify_copy-Verdict =
      if_intro (Verdict html copy title) _ (λ w. wall (IsWall-iff.0 w))
        (λ no_wall.
          if_intro (Verdict html copy title) _
            (λ d. denial (not_so _ IsWall-iff no_wall) ((IsDenial-iff _).0 d))
            (λ no_denial.
              content (not_so _ IsWall-iff no_wall) (not_so _ (IsDenial-iff _) no_denial)))

-- What a page is said to be, whatever its document, text and title, exactly: a bot wall if it is short,
-- opens with "hang tight" and says that the browser is being checked; or if its document bears a mark
-- of the vendor and either the title asks to wait for a check, or the text does, is short, and opens
-- with that or has the script of a challenge in its document. Else a security challenge, if title or
-- text say that access was denied and there is a word or a script of a challenge, or a reference
-- number, beside it. And else neither. The words are those of the document's copy, or were given
-- beside it, in lower case.
pub classify-Verdict :
    (html_copy : Text → DocumentCopy) (html text title : Option Text)
    → let lower_html = to_ascii_lowercase (text_or html []) in
      let document = html_copy lower_html in
      Verdict lower_html
        (to_ascii_lowercase (text_or text document.text))
        (to_ascii_lowercase (text_or title document.title))
        (classify html_copy html text title)
unfolding classify
classify-Verdict html_copy html text title = classify_copy-Verdict _ _ _
