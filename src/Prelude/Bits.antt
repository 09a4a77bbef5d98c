-- ===== src/Prelude/Bits.antt =====
-- Exclusive or and or of two numbers, and when they are zero.
use Prim.Native.Nat.{
  ℕ, zero, suc, ◌/◌, ◌%◌, ◌≤◌, max, bit_or, bit_xor, digits, differ, bit_or-bitwise,
  bit_xor-bitwise,
}
use mathlib.Core.Path.{◌≡◌, refl, sym, ap, ◌∙◌}
use native.Mathlib.Omega.{arith}

differ_zero : (a b : ℕ) → differ a b ≡ 0 → a ≡ b
differ_zero zero b h = sym h
differ_zero (suc a) zero h = h
differ_zero (suc a) (suc b) h = ap suc (differ_zero a b h)

differ_same : (a : ℕ) → differ a a ≡ 0
differ_same zero = refl
differ_same (suc a) = differ_same a

xor_digits_zero : (n a b : ℕ) → a ≤ n → digits (λ b. b) differ n a b ≡ 0 → a ≡ b
xor_digits_zero zero zero b le h = sym h
xor_digits_zero zero (suc a) b le h = absurd (omega arith)
xor_digits_zero (suc n) zero b le h = sym h
xor_digits_zero (suc n) (suc a) b le h =
    let high = xor_digits_zero n (suc a / 2) (b / 2) (omega arith) (omega (arith, h)) in
    let low = differ_zero (suc a % 2) (b % 2) (omega (arith, h)) in omega (arith, high, low)

xor_digits_same : (n a : ℕ) → a ≤ n → digits (λ b. b) differ n a a ≡ 0
xor_digits_same zero zero le = refl
xor_digits_same zero (suc a) le = absurd (omega arith)
xor_digits_same (suc n) zero le = refl
xor_digits_same (suc n) (suc a) le =
    omega (arith, xor_digits_same n (suc a / 2) (omega arith), differ_same (suc a % 2))

pub bit_xor_zero : (a b : ℕ) → bit_xor a b ≡ 0 → a ≡ b
bit_xor_zero a b h = xor_digits_zero a a b (omega arith) (sym (bit_xor-bitwise a b) ∙ h)

pub bit_xor_same : (a : ℕ) → bit_xor a a ≡ 0
bit_xor_same a = bit_xor-bitwise a a ∙ xor_digits_same a a (omega arith)

or_digits_zero : (n a b : ℕ) → a ≤ n → digits (λ b. b) max n a b ≡ 0 → (a ≡ 0) × (b ≡ 0)
or_digits_zero zero zero b le h = (refl, h)
or_digits_zero zero (suc a) b le h = absurd (omega arith)
or_digits_zero (suc n) zero b le h = (refl, h)
or_digits_zero (suc n) (suc a) b le h =
    let high = or_digits_zero n (suc a / 2) (b / 2) (omega arith) (omega (arith, h)) in
    (omega (arith, h, high.0), omega (arith, h, high.1))

pub bit_or_zero : (a b : ℕ) → bit_or a b ≡ 0 → (a ≡ 0) × (b ≡ 0)
bit_or_zero a b h = or_digits_zero a a b (omega arith) (sym (bit_or-bitwise a b) ∙ h)
