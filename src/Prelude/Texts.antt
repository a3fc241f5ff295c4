-- ===== src/Prelude/Texts.antt =====
-- Texts as lists of code points, with the operations of Rust's `str` that the program calls.
use Prim.Native.Nat.{ℕ, ◌+◌}
use Prim.Native.Char.{code}
use Prim.Native.String.{String}
use mathlib.Core.Path.{◌≡◌, refl, ap}
use mathlib.Core.Logic.{◌↔◌, inl, inr}
use mathlib.Core.Bool.{Bool, true, false, ◌&&◌, ◌||◌}
use mathlib.Core.Option.{Option, none, some}
use mathlib.Core.List.{List, [], ◌∷◌, ◌++◌}
use native.Mathlib.Omega.{arith}
use agent_first_http.Prelude.Tests.{leb, ◌==◌, Bool-cases, if◌then◌else◌}

abbrev pub Text : Type 0
Text = List ℕ

-- The code points of a literal.
abbrev pub codes : String → Text
codes String.[] = []
codes (String.◌∷◌ c s) = code c ∷ codes s

-- `a == b`
unfoldable pub text_eq : Text → Text → Bool
text_eq [] [] = true
text_eq (x ∷ xs) (y ∷ ys) = x == y && text_eq xs ys
text_eq _ _ = false

pub text_eq_refl : (s : Text) → text_eq s s ≡ true
unfolding text_eq
text_eq_refl [] = refl
text_eq_refl (x ∷ xs) = ground (arith, text_eq_refl xs)

pub text_eq_sound : (s t : Text) → text_eq s t ≡ true → s ≡ t
unfolding text_eq
text_eq_sound [] [] h = refl
text_eq_sound [] (y ∷ ys) h = cc
text_eq_sound (x ∷ xs) [] h = cc
text_eq_sound (x ∷ xs) (y ∷ ys) h = ground (arith, text_eq_sound xs ys)

pub text_eq_iff : (s t : Text) → (text_eq s t ≡ true) ↔ (s ≡ t)
text_eq_iff s t = (text_eq_sound s t, λ e. rw e (text_eq_refl t))

pub text_eq_sym : (s t : Text) → text_eq s t ≡ text_eq t s
text_eq_sym s t = ground (arith, text_eq_iff s t, text_eq_iff t s)

pub text_eq_trans : (s t u : Text) → text_eq s t ≡ true → text_eq t u ≡ true → text_eq s u ≡ true
text_eq_trans s t u p q = ground (arith, text_eq_iff s t, text_eq_iff t u, text_eq_iff s u)

-- `s.strip_prefix(p)`
unfoldable pub strip_prefix : Text → Text → Option Text
strip_prefix [] s = some s
strip_prefix (p ∷ ps) [] = none
strip_prefix (p ∷ ps) (c ∷ s) = if p == c then strip_prefix ps s else none

pub strip_prefix_sound : (p s r : Text) → strip_prefix p s ≡ some r → s ≡ p ++ r
unfolding strip_prefix
strip_prefix_sound [] s r h = ground arith
strip_prefix_sound (p ∷ ps) [] r h = cc
strip_prefix_sound (p ∷ ps) (c ∷ s) r h = ground (arith, strip_prefix_sound ps s r)

pub strip_prefix-append : (p r : Text) → strip_prefix p (p ++ r) ≡ some r
unfolding strip_prefix
strip_prefix-append [] r = refl
strip_prefix-append (p ∷ ps) r = ground (arith, strip_prefix-append ps r)

-- `s.starts_with(p)`
unfoldable pub starts_with : Text → Text → Bool
starts_with [] s = true
starts_with (p ∷ ps) [] = false
starts_with (p ∷ ps) (c ∷ s) = p == c && starts_with ps s

-- `s.ends_with(e)`, the text first
unfoldable pub ends_with : Text → Text → Bool
ends_with [] e = text_eq [] e
ends_with (c ∷ s) e = text_eq (c ∷ s) e || ends_with s e

pub ends_with_sound : (s e : Text) → ends_with s e ≡ true → (p : Text) × (s ≡ p ++ e)
unfolding ends_with
ends_with_sound [] e h = ([], text_eq_sound [] e h)
ends_with_sound (c ∷ s) e h = elim (Bool-cases (text_eq (c ∷ s) e)) [
  | inl q ↦ ([], text_eq_sound (c ∷ s) e q)
  | inr q ↦ let ih = ends_with_sound s e (rw q at h) in (c ∷ ih.0, ap (λ (t : Text). c ∷ t) ih.1)
]

pub ends_with-append : (p e : Text) → ends_with (p ++ e) e ≡ true
unfolding ends_with text_eq
ends_with-append [] [] = refl
ends_with-append [] (c ∷ e) = rw (text_eq_refl (c ∷ e))
ends_with-append (c ∷ p) e = ground (arith, ends_with-append p e)

-- `s.ends_with(c)` for one character
unfoldable pub ends_with_char : Text → ℕ → Bool
ends_with_char [] k = false
ends_with_char (c ∷ []) k = c == k
ends_with_char (c ∷ d ∷ s) k = ends_with_char (d ∷ s) k

-- `s.starts_with(c)` for one character
abbrev pub starts_with_char : Text → ℕ → Bool
starts_with_char [] k = false
starts_with_char (c ∷ s) k = c == k

-- `s.contains(c)` for one character
unfoldable pub contains_char : Text → ℕ → Bool
contains_char [] k = false
contains_char (c ∷ s) k = c == k || contains_char s k

-- `s.contains(n)` for a text
unfoldable pub contains : Text → Text → Bool
contains [] n = text_eq [] n
contains (c ∷ s) n = starts_with n (c ∷ s) || contains s n

-- `s.trim_start_matches(k)` for one character
unfoldable pub trim_start_char : ℕ → Text → Text
trim_start_char k [] = []
trim_start_char k (c ∷ s) = if c == k then trim_start_char k s else c ∷ s

-- `c.to_ascii_lowercase()`
unfoldable pub lower_char : ℕ → ℕ
lower_char c = if leb b'A' c && leb c b'Z' then c + 32 else c

-- `s.to_ascii_lowercase()`
unfoldable pub to_ascii_lowercase : Text → Text
unfolding lower_char
to_ascii_lowercase [] = []
to_ascii_lowercase (c ∷ s) = lower_char c ∷ to_ascii_lowercase s

lower_char_idem : (c : ℕ) → lower_char (lower_char c) ≡ lower_char c
unfolding lower_char
lower_char_idem c = ground arith

lower_char_fixes : (k c : ℕ) → leb k 64 ≡ true → (lower_char c == k) ≡ (c == k)
unfolding lower_char
lower_char_fixes k c h = ground arith

pub to_ascii_lowercase_idem :
    (s : Text) → to_ascii_lowercase (to_ascii_lowercase s) ≡ to_ascii_lowercase s
unfolding to_ascii_lowercase
to_ascii_lowercase_idem [] = refl
to_ascii_lowercase_idem (c ∷ s) = cc (lower_char_idem c, to_ascii_lowercase_idem s)

-- Lower case leaves a dot, a slash or a digit alone, so trimming commutes with it.
pub trim_start_char-to_ascii_lowercase :
    (k : ℕ) (s : Text)
    → leb k 64 ≡ true
    → trim_start_char k (to_ascii_lowercase s) ≡ to_ascii_lowercase (trim_start_char k s)
unfolding trim_start_char to_ascii_lowercase
trim_start_char-to_ascii_lowercase k [] h = refl
trim_start_char-to_ascii_lowercase k (c ∷ s) h =
    rw (lower_char_fixes k c h) (ground (arith, trim_start_char-to_ascii_lowercase k s h))

pub trim_start_char_idem :
    (k : ℕ) (s : Text) → trim_start_char k (trim_start_char k s) ≡ trim_start_char k s
unfolding trim_start_char
trim_start_char_idem k [] = refl
trim_start_char_idem k (c ∷ s) = ground (arith, trim_start_char_idem k s)

-- `a.eq_ignore_ascii_case(b)`
unfoldable pub eq_ignore_ascii_case : Text → Text → Bool
eq_ignore_ascii_case s t = text_eq (to_ascii_lowercase s) (to_ascii_lowercase t)

pub eq_ignore_ascii_case_iff :
    (s t : Text) → (eq_ignore_ascii_case s t ≡ true) ↔ (to_ascii_lowercase s ≡ to_ascii_lowercase t)
unfolding eq_ignore_ascii_case
eq_ignore_ascii_case_iff s t = text_eq_iff (to_ascii_lowercase s) (to_ascii_lowercase t)

pub eq_ignore_ascii_case_refl : (s : Text) → eq_ignore_ascii_case s s ≡ true
eq_ignore_ascii_case_refl s = (eq_ignore_ascii_case_iff s s).1 refl
