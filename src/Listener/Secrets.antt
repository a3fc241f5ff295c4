-- ===== src/Listener/Secrets.antt =====
-- `constant_time_eq` of host/listener/mod.rs: the comparison of a secret with what was supplied.
use Prim.Native.Nat.{bit_or, bit_xor}
use agent_first_http.Prelude.{
  ℕ, ◌≡◌, ◌↔◌, refl, Text, Bool, true, false, not, [], ◌∷◌, ◌==◌, if◌then◌else◌, length, arith,
}
use agent_first_http.Prelude.Bits.{bit_xor-eq, bit_xor_self, bit_or-zero, zero-bit_or}

-- The loop over the pairs of bytes.
unfoldable pub difference : ℕ → Text → Text → ℕ
difference diff [] b = diff
difference diff (x ∷ a) [] = diff
difference diff (x ∷ a) (y ∷ b) = difference (bit_or diff (bit_xor x y)) a b

unfoldable pub constant_time_eq : Text → Text → Bool
unfolding difference
constant_time_eq a b = if not (length a == length b) then false else difference 0 a b == 0

difference-zero :
    (diff : ℕ) (a b : Text) → length a ≡ length b → difference diff a b ≡ 0 → (diff ≡ 0) × (a ≡ b)
unfolding difference
difference-zero diff [] [] l h = (h, refl)
difference-zero diff [] (y ∷ b) l h = absurd (omega arith)
difference-zero diff (x ∷ a) [] l h = absurd (omega arith)
difference-zero diff (x ∷ a) (y ∷ b) l h =
    let rest = difference-zero (bit_or diff (bit_xor x y)) a b (omega arith) h in
    let bits = bit_or-zero diff (bit_xor x y) rest.0 in (bits.0, cc (bit_xor-eq x y bits.1, rest.1))

difference_self : (a : Text) → difference 0 a a ≡ 0
unfolding difference
difference_self [] = refl
difference_self (x ∷ a) = rw (bit_xor_self x, zero-bit_or 0) (difference_self a)

-- The comparison, which reads every byte whatever the earlier ones are, says whether two byte strings
-- are equal.
pub constant_time_eq_iff : (a b : Text) → (constant_time_eq a b ≡ true) ↔ (a ≡ b)
unfolding constant_time_eq
constant_time_eq_iff a b = (
  λ h. (difference-zero 0 a b (ground arith) (ground arith)).1,
  λ e. rw (← e) (ground (arith, difference_self a)),
)
