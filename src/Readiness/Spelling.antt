-- ===== src/Readiness/Spelling.antt =====
-- Which texts name which condition to wait for.
use agent_first_http.Prelude.{
  ℕ, Text, codes, Bool, true, false, ◌≡◌, refl, sym, subst, ◌↔◌, inl, inr, Option, none, some, ◌++◌,
  Bool-cases, Option-cases, text_eq, text_eq_sound, strip_prefix, strip_prefix_sound, parse_u64,
}
use agent_first_http.Errors.{Result, ok, err, new, invalid_argument}
use agent_first_http.Pages.Classification.{trim_start}
use agent_first_http.Request.Values.{trim_end, is_empty}
use agent_first_http.Readiness.Wait.{
  Wait, auto, load, idle, selector, selector_visible, selector_stable, ms, if_filled, of_ms,
  parse_ms, parse_selector, parse_visible, parse_stable, parse,
}

-- The text that names a condition: for `ms:` any digits of the number, for a selector one that is not
-- empty, nor blank for `selector-stable:`.
abbrev pub Written : Wait → Text → Type 0
Written auto s = s ≡ codes "auto"
Written load s = s ≡ codes "load"
Written idle s = s ≡ codes "idle"
Written (selector sel) s = (s ≡ codes "selector:" ++ sel) × (is_empty sel ≡ false)
Written (selector_visible sel) s = (s ≡ codes "selector-visible:" ++ sel) × (is_empty sel ≡ false)
Written (selector_stable sel) s =
    (s ≡ codes "selector-stable:" ++ sel) × (is_empty (trim_end (trim_start sel)) ≡ false)
Written (ms n) s = (digits : Text) × (s ≡ codes "ms:" ++ digits) × (parse_u64 digits ≡ some n)

if_filled-ok : (b : Bool) (v w : Wait) → if_filled b v ≡ ok w → (b ≡ false) × (v ≡ w)
if_filled-ok true v w e = cc
if_filled-ok false v w e = (refl, cc)

of_ms-ok : (o : Option ℕ) (w : Wait) → of_ms o ≡ ok w → (n : ℕ) × (o ≡ some n) × (ms n ≡ w)
of_ms-ok none w e = cc
of_ms-ok (some n) w e = (n, refl, cc)

parse_ms-Written : (s : Text) (w : Wait) → parse_ms s ≡ ok w → Written w s
unfolding parse_ms
parse_ms-Written s w e = elim (Option-cases (strip_prefix (codes "ms:") s)) [
  | inl no_match ↦ let bad : err (new invalid_argument) ≡ ok w = rw (no_match, parse_ms) at e in cc
  | inr (rest, matched) ↦
      let (n, digits, same) = of_ms-ok (parse_u64 rest) w (rw (matched, parse_ms) at e) in
      subst (λ (v : Wait). Written v s) same
        (rest, strip_prefix_sound (codes "ms:") s rest matched, digits)
]

parse_selector-Written : (s : Text) (w : Wait) → parse_selector s ≡ ok w → Written w s
unfolding parse_selector
parse_selector-Written s w e = elim (Option-cases (strip_prefix (codes "selector:") s)) [
  | inl no_match ↦ parse_ms-Written s w (rw (no_match, parse_selector) at e)
  | inr (rest, matched) ↦
      let (filled, same) =
        if_filled-ok (is_empty rest) (selector rest) w (rw (matched, parse_selector) at e) in
      subst (λ (v : Wait). Written v s) same
        (strip_prefix_sound (codes "selector:") s rest matched, filled)
]

parse_visible-Written : (s : Text) (w : Wait) → parse_visible s ≡ ok w → Written w s
unfolding parse_visible
parse_visible-Written s w e = elim (Option-cases (strip_prefix (codes "selector-visible:") s)) [
  | inl no_match ↦ parse_selector-Written s w (rw (no_match, parse_visible) at e)
  | inr (rest, matched) ↦
      let (filled, same) =
        if_filled-ok (is_empty rest) (selector_visible rest) w (rw (matched, parse_visible) at e) in
      subst (λ (v : Wait). Written v s) same
        (strip_prefix_sound (codes "selector-visible:") s rest matched, filled)
]

parse_stable-Written : (s : Text) (w : Wait) → parse_stable s ≡ ok w → Written w s
unfolding parse_stable
parse_stable-Written s w e = elim (Option-cases (strip_prefix (codes "selector-stable:") s)) [
  | inl no_match ↦ parse_visible-Written s w (rw (no_match, parse_stable) at e)
  | inr (rest, matched) ↦
      let (filled, same) =
        if_filled-ok (is_empty (trim_end (trim_start rest))) (selector_stable rest) w
          (rw (matched, parse_stable) at e) in
      subst (λ (v : Wait). Written v s) same
        (strip_prefix_sound (codes "selector-stable:") s rest matched, filled)
]

ok_same : {v w : Wait} → ◌≡◌ {A = Result Wait} (ok v) (ok w) → v ≡ w
ok_same e = cc

parse-Written : (s : Text) (w : Wait) → parse s ≡ ok w → Written w s
unfolding parse
parse-Written s w e = elim (Bool-cases (text_eq s (codes "auto"))) [
  | inl a ↦
      let same : auto ≡ w = ok_same (rw (a, parse) at e) in
      subst (λ (v : Wait). Written v s) same (text_eq_sound s _ a)
  | inr not_auto ↦ elim (Bool-cases (text_eq s (codes "load"))) [
    | inl l ↦
        let same : load ≡ w = ok_same (rw (not_auto, l, parse) at e) in
        subst (λ (v : Wait). Written v s) same (text_eq_sound s _ l)
    | inr not_load ↦ elim (Bool-cases (text_eq s (codes "idle"))) [
      | inl i ↦
          let same : idle ≡ w = ok_same (rw (not_auto, not_load, i, parse) at e) in
          subst (λ (v : Wait). Written v s) same (text_eq_sound s _ i)
      | inr not_idle ↦ parse_stable-Written s w (rw (not_auto, not_load, not_idle, parse) at e)
    ]
  ]
]

module _ (t : Text) where
  parse-selector : is_empty t ≡ false → parse (codes "selector:" ++ t) ≡ ok (selector t)
  unfolding parse text_eq strip_prefix
  parse-selector filled = rw filled

  parse-visible :
      is_empty t ≡ false → parse (codes "selector-visible:" ++ t) ≡ ok (selector_visible t)
  unfolding parse text_eq strip_prefix
  parse-visible filled = rw filled

  parse-stable :
      is_empty (trim_end (trim_start t)) ≡ false
      → parse (codes "selector-stable:" ++ t) ≡ ok (selector_stable t)
  unfolding parse text_eq strip_prefix
  parse-stable filled = rw filled

  parse-ms : (n : ℕ) → parse_u64 t ≡ some n → parse (codes "ms:" ++ t) ≡ ok (ms n)
  unfolding parse text_eq strip_prefix
  parse-ms n value = rw value

abbrev Reads : Wait → Text → Type 0
Reads w s = parse s ≡ ok w

Written-parse : (w : Wait) (s : Text) → Written w s → Reads w s
unfolding parse text_eq
Written-parse auto s e = subst (Reads auto) (sym e) refl
Written-parse load s e = subst (Reads load) (sym e) refl
Written-parse idle s e = subst (Reads idle) (sym e) refl
Written-parse (selector t) s (e, filled) =
    subst (Reads (selector t)) (sym e) (parse-selector t filled)
Written-parse (selector_visible t) s (e, filled) =
    subst (Reads (selector_visible t)) (sym e) (parse-visible t filled)
Written-parse (selector_stable t) s (e, filled) =
    subst (Reads (selector_stable t)) (sym e) (parse-stable t filled)
Written-parse (ms n) s (t, e, value) = subst (Reads (ms n)) (sym e) (parse-ms t n value)

-- A text is read as a condition exactly if it names it: by its word, or its prefix and a selector that is
-- not empty (not blank for `selector-stable:`), or `ms:` and a number that fits 64 bits; every other text
-- is refused.
pub parse_iff : (s : Text) (w : Wait) → (parse s ≡ ok w) ↔ Written w s
parse_iff s w = (parse-Written s w, Written-parse w s)
