-- ===== src/Auth/ConstantTime.antt =====
-- crates/rustee-auth/src/constant_time.rs: the comparison of secrets that takes the same time
-- wherever they differ.
use Prim.Native.Nat.{digits, differ, bit_or, bit_xor, bit_or-bitwise, bit_xor-bitwise}
use rustee_web_framework.Prelude.{
  ℕ, zero, suc, ◌≤◌, ◌/◌, ◌%◌, ◌≡◌, ap, ◌↔◌, inl, inr, Bool-cases, Bool, true, false, not, List, [],
  ◌∷◌, arith, max, ◌==◌, if◌then◌else◌, length,
}

-- The fold over the pairs of bytes.
unfoldable pub difference_from : ℕ → List ℕ → List ℕ → ℕ
difference_from difference [] right = difference
difference_from difference (a ∷ left) [] = difference
difference_from difference (a ∷ left) (b ∷ right) =
    difference_from (bit_or difference (bit_xor a b)) left right

unfoldable pub constant_time_eq : List ℕ → List ℕ → Bool
unfolding difference_from
constant_time_eq left right =
    if not (length left == length right) then false else difference_from 0 left right == 0

differ_zero : (a b : ℕ) → (differ a b ≡ 0) ↔ (a ≡ b)
differ_zero zero b = ground arith
differ_zero (suc a) zero = ground arith
differ_zero (suc a) (suc b) = ground (arith, differ_zero a b)

xor_digits : (n a b : ℕ) → a ≤ n → (digits (λ d. d) differ n a b ≡ 0) ↔ (a ≡ b)
xor_digits zero a b h = ground arith
xor_digits (suc n) zero b h = ground arith
xor_digits (suc n) (suc a) b h =
    let less : (suc a / 2 ≤ n) = omega (arith, h) in
    ground (arith, differ_zero (suc a % 2) (b % 2), xor_digits n (suc a / 2) (b / 2) less)

bit_xor_iff : (a b : ℕ) → (bit_xor a b ≡ 0) ↔ (a ≡ b)
bit_xor_iff a b =
    let e : (bit_xor a b ≡ digits (λ d. d) differ a a b) = bit_xor-bitwise a b in
    rw e (xor_digits a a b (omega arith))

or_digits : (n a b : ℕ) → a ≤ n → (digits (λ d. d) max n a b ≡ 0) ↔ ((a ≡ 0) × (b ≡ 0))
or_digits zero a b h = ground arith
or_digits (suc n) zero b h = ground arith
or_digits (suc n) (suc a) b h =
    let less : (suc a / 2 ≤ n) = omega (arith, h) in
    ground (arith, or_digits n (suc a / 2) (b / 2) less)

bit_or_iff : (a b : ℕ) → (bit_or a b ≡ 0) ↔ ((a ≡ 0) × (b ≡ 0))
bit_or_iff a b =
    let e : (bit_or a b ≡ digits (λ d. d) max a a b) = bit_or-bitwise a b in
    rw e (or_digits a a b (omega arith))

difference_from_iff :
    (difference : ℕ) (left right : List ℕ)
    → length left ≡ length right
    → (difference_from difference left right ≡ 0) ↔ ((difference ≡ 0) × (left ≡ right))
unfolding difference_from
difference_from_iff difference [] [] h = ground arith
difference_from_iff difference [] (b ∷ right) h = absurd (ground arith)
difference_from_iff difference (a ∷ left) [] h = absurd (ground arith)
difference_from_iff difference (a ∷ left) (b ∷ right) h = ground (
  arith,
  difference_from_iff (bit_or difference (bit_xor a b)) left right,
  bit_or_iff difference (bit_xor a b),
  bit_xor_iff a b,
)

-- The comparison tells equality: it is true exactly for the same bytes in the same order.
pub constant_time_eq_iff :
    (left right : List ℕ) → (constant_time_eq left right ≡ true) ↔ (left ≡ right)
unfolding constant_time_eq
constant_time_eq_iff left right = elim (Bool-cases (length left == length right)) [
  | inl same ↦ ground (arith, same, difference_from_iff 0 left right)
  | inr other ↦ (λ h. absurd (ground arith), λ h. absurd (ground (arith, ap length h)))
]
