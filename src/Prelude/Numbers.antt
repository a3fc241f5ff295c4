-- ===== src/Prelude/Numbers.antt =====
-- Decimal numbers: `to_string` and `str::parse::<u64>`.
use Prim.Native.Nat.{ℕ, zero, suc, ◌+◌, ◌-◌, ◌*◌, ◌/◌, ◌%◌, ◌≤◌, ◌<◌}
use mathlib.Core.Path.{◌≡◌, refl, ◌∙◌}
use mathlib.Core.Logic.{inl, inr}
use mathlib.Core.Bool.{Bool, ◌&&◌}
use mathlib.Core.Option.{Option, none, some}
use mathlib.Core.List.{[], ◌∷◌, ◌++◌, append_assoc, append-nil}
use native.Mathlib.Omega.{arith}
use agent_first_http.Prelude.Tests.{ltb, leb, ◌==◌, Bool-cases, if◌then◌else◌, ltb→lt}
use agent_first_http.Prelude.Texts.{Text}

abbrev pub u64_max : ℕ
u64_max = 18446744073709551615

-- The digits of a number, with more fuel than the number.
decimal : ℕ → ℕ → Text
decimal zero n = []
decimal (suc fuel) n =
    let front = decimal fuel (n / 10) in
    if ltb n 10 then (b'0' + n) ∷ [] else front ++ (b'0' + n % 10) ∷ []

-- `n.to_string()`
unfoldable pub to_string : ℕ → Text
unfolding decimal
to_string n = decimal (suc n) n

abbrev pub is_digit : ℕ → Bool
is_digit c = leb b'0' c && leb c b'9'

unfoldable pub parse_digits : ℕ → Text → Option ℕ
parse_digits acc [] = some acc
parse_digits acc (c ∷ s) =
    let rest = parse_digits (acc * 10 + (c - b'0')) s in
    if is_digit c && leb (acc * 10 + (c - b'0')) u64_max then rest else none

-- A sign may stand before the digits, and one digit at least is wanted.
abbrev pub digits_after_sign : Text → Text
digits_after_sign [] = []
digits_after_sign (c ∷ s) = if c == b'+' then s else c ∷ s

abbrev pub parse_some_digits : Text → Option ℕ
parse_some_digits [] = none
parse_some_digits (c ∷ s) = parse_digits 0 (c ∷ s)

-- `s.parse::<u64>().ok()`
unfoldable pub parse_u64 : Text → Option ℕ
unfolding parse_digits
parse_u64 s = parse_some_digits (digits_after_sign s)

parse_digits-decimal :
    (fuel n : ℕ) (t : Text)
    → n < fuel
    → n ≤ u64_max
    → parse_digits 0 (decimal fuel n ++ t) ≡ parse_digits n t
unfolding decimal parse_digits
parse_digits-decimal zero n t h m = elim h [ ]
parse_digits-decimal (suc fuel) n t h m = elim (Bool-cases (ltb n 10)) [
  | inl small ↦ let small' = ltb→lt n 10 small in ground arith
  | inr large ↦
      let more = parse_digits-decimal fuel (n / 10) ((b'0' + n % 10) ∷ t) in
      let size : 10 ≤ n = ground arith in
      let digit : 10 * (n / 10) + n % 10 ≡ n = omega arith in
      rw (large, append_assoc) (more (omega arith) (omega arith) ∙ ground arith)
]

decimal-digit :
    (fuel n : ℕ) → n < fuel → (c : ℕ) × (s : Text) × (decimal fuel n ≡ c ∷ s) × (b'0' ≤ c)
unfolding decimal
decimal-digit zero n h = elim h [ ]
decimal-digit (suc fuel) n h = elim (Bool-cases (ltb n 10)) [
  | inl small ↦ (b'0' + n, [], rw small refl, omega arith)
  | inr large ↦
      let size : 10 ≤ n = ground arith in
      let (c, s, e, b) = decimal-digit fuel (n / 10) (omega arith) in
      (c, s ++ (b'0' + n % 10) ∷ [], rw (large, e) refl, b)
]

pub parse_u64-to_string : (n : ℕ) → n ≤ u64_max → parse_u64 (to_string n) ≡ some n
unfolding parse_u64 to_string
parse_u64-to_string n m =
    let (c, s, e, b) = decimal-digit (suc n) n (omega arith) in
    let whole = parse_digits-decimal (suc n) n [] (omega arith) m in
    let whole' : parse_digits 0 (c ∷ s) ≡ some n = rw (append-nil, e) at whole in
    rw e (ground (arith, whole'))
