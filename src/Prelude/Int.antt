-- ===== src/Prelude/Int.antt =====
-- Signed integers over the native numbers, and the wrap-around of a 64-bit two's complement word.
-- Sums and orders go through the two parts of an integer, which are numbers that `omega` reads.
use Prim.Native.Nat.{ℕ, suc, ◌+◌, ◌-◌, ◌%◌, ◌≤◌, ◌<◌}
use mathlib.Core.Path.{◌≡◌}
use mathlib.Core.Bool.{◌&&◌, Bool}
use native.Mathlib.Omega.{arith}
use payment_gateway_in_rust.Prelude.Tests.{ltb, leb, ◌==◌, if◌then◌else◌}

-- `negsuc n` is -(n + 1).
pub data ℤ : Type 0 where
  pos : ℕ → ℤ
  negsuc : ℕ → ℤ

abbrev pub pos_part : ℤ → ℕ
pos_part (pos n) = n
pos_part (negsuc n) = 0

abbrev pub neg_part : ℤ → ℕ
neg_part (pos n) = 0
neg_part (negsuc n) = suc n

-- a - b, as an integer.
abbrev pub sub_ℕ : ℕ → ℕ → ℤ
sub_ℕ a b = if leb b a then pos (a - b) else negsuc (b - a - 1)

infixl 65 ◌+ℤ◌ ◌-ℤ◌
infix 50 ◌≤ℤ◌ ◌<ℤ◌
unfoldable pub ◌+ℤ◌ : ℤ → ℤ → ℤ
a +ℤ b = sub_ℕ (pos_part a + pos_part b) (neg_part a + neg_part b)

unfoldable pub ◌-ℤ◌ : ℤ → ℤ → ℤ
a -ℤ b = sub_ℕ (pos_part a + neg_part b) (neg_part a + pos_part b)

abbrev pub ◌≤ℤ◌ : ℤ → ℤ → Type 0
a ≤ℤ b = pos_part a + neg_part b ≤ pos_part b + neg_part a

abbrev pub ◌<ℤ◌ : ℤ → ℤ → Type 0
a <ℤ b = pos_part a + neg_part b < pos_part b + neg_part a

abbrev pub ltb_ℤ : ℤ → ℤ → Bool
ltb_ℤ a b = ltb (pos_part a + neg_part b) (pos_part b + neg_part a)

abbrev pub leb_ℤ : ℤ → ℤ → Bool
leb_ℤ a b = leb (pos_part a + neg_part b) (pos_part b + neg_part a)

abbrev pub eqb_ℤ : ℤ → ℤ → Bool
eqb_ℤ a b = pos_part a + neg_part b == pos_part b + neg_part a

pub +ℤ_parts :
    (a b : ℤ)
    → pos_part (a +ℤ b) + neg_part a + neg_part b ≡ neg_part (a +ℤ b) + pos_part a + pos_part b
unfolding ◌+ℤ◌
+ℤ_parts a b = ground arith

pub -ℤ_parts :
    (a b : ℤ)
    → pos_part (a -ℤ b) + neg_part a + pos_part b ≡ neg_part (a -ℤ b) + pos_part a + neg_part b
unfolding ◌-ℤ◌
-ℤ_parts a b = ground arith

pub eq_of_parts : (a b : ℤ) → pos_part a + neg_part b ≡ pos_part b + neg_part a → a ≡ b
eq_of_parts a b h = ground arith

pub ruleset int_laws = (arith, +ℤ_parts, -ℤ_parts, eq_of_parts)

-- The integer that a 64-bit pattern stands for, and an integer reduced to `i64`.
abbrev signed_64 : ℕ → ℤ
signed_64 r = if ltb r 9223372036854775808 then pos r else negsuc (18446744073709551615 - r)

unfoldable pub wrap_i64 : ℤ → ℤ
wrap_i64 (pos n) = signed_64 (n % 18446744073709551616)
wrap_i64 (negsuc n) = signed_64 (18446744073709551615 - n % 18446744073709551616)

abbrev pub IsI64 : ℤ → Type 0
IsI64 z = (pos_part z < 9223372036854775808) × (neg_part z ≤ 9223372036854775808)

-- Within the range the reduction changes nothing.
pub wrap_i64_id : (z : ℤ) → IsI64 z → wrap_i64 z ≡ z
unfolding wrap_i64
wrap_i64_id (pos n) h = ground arith
wrap_i64_id (negsuc n) h = ground arith

-- The result is always in range.
pub wrap_i64-IsI64 : (z : ℤ) → IsI64 (wrap_i64 z)
unfolding wrap_i64
wrap_i64-IsI64 (pos n) = ground arith
wrap_i64-IsI64 (negsuc n) = ground arith

-- A value that a BIGINT column takes.
abbrev pub fits_bigint : ℤ → Bool
fits_bigint z = ltb (pos_part z) 9223372036854775808 && leb (neg_part z) 9223372036854775808
