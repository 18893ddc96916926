-- ===== src/Prelude/Int.antt =====
-- Signed 64-bit integers: ℤ over the native numbers, and the wrap-around of Go's int64.
use spaceempire_back.Prelude.Tests.{ltb, leb, ◌==◌, if◌then◌else◌}
use Prim.Native.Nat.{ℕ, suc, ◌+◌, ◌-◌, ◌%◌, ◌≤◌, ◌<◌}
use mathlib.Core.Path.{◌≡◌, refl}
use mathlib.Core.Bool.{Bool}
use native.Mathlib.Omega.{arith}

-- `negsuc n` is -(n + 1).
pub data ℤ : Type 0 where
  pos : ℕ → ℤ
  negsuc : ℕ → ℤ

abbrev pub pos_part : ℤ → ℕ
pos_part (pos n) = n
pos_part (negsuc n) = 0

abbrev pub neg_part : ℤ → ℕ
neg_part (pos n) = 0
neg_part (negsuc n) = suc n

-- a - b, as an integer.
abbrev pub sub_ℕ : ℕ → ℕ → ℤ
sub_ℕ a b = if leb b a then pos (a - b) else negsuc (b - a - 1)

abbrev pub neg : ℕ → ℤ
neg n = sub_ℕ 0 n

abbrev pub ltb_ℤ : ℤ → ℤ → Bool
ltb_ℤ a b = ltb (pos_part a + neg_part b) (pos_part b + neg_part a)

abbrev pub leb_ℤ : ℤ → ℤ → Bool
leb_ℤ a b = leb (pos_part a + neg_part b) (pos_part b + neg_part a)

-- 2 ^ 63 - 1, the largest int64 and BIGINT.
abbrev pub max_i64 : ℕ
max_i64 = 9223372036854775807

-- 2 ^ 31 - 1, the largest INTEGER.
abbrev pub max_i32 : ℕ
max_i32 = 2147483647

abbrev pub two_64 : ℕ
two_64 = 18446744073709551616

-- The int64 that a sum or a product of int64s that are not negative wraps to.
unfoldable pub wrap_i64 : ℕ → ℤ
wrap_i64 n = let r = n % two_64 in if leb r max_i64 then pos r else negsuc (two_64 - r - 1)

-- `-x` on int64: the least int64 is its own negation.
unfoldable pub neg_i64 : ℤ → ℤ
neg_i64 (pos n) = neg n
neg_i64 (negsuc n) = if n == max_i64 then negsuc n else pos (suc n)

pub wrap_i64_small : (n : ℕ) → n ≤ max_i64 → wrap_i64 n ≡ pos n
unfolding wrap_i64
wrap_i64_small n h = ground arith

-- What wraps to a number that is not negative, and came from two int64s, did not wrap.
pub wrap_i64_exact : (n : ℕ) → n < two_64 → (q : ℕ) → leb_ℤ (pos q) (wrap_i64 n) ≡ Bool.true → q ≤ n
unfolding wrap_i64
wrap_i64_exact n lt q h = ground arith

pub neg_i64_pos : (n : ℕ) → neg_i64 (pos n) ≡ neg n
unfolding neg_i64
neg_i64_pos n = refl

pub pos_part-neg : (n : ℕ) → pos_part (neg n) ≡ 0
pos_part-neg n = ground arith

pub neg_part-neg : (n : ℕ) → neg_part (neg n) ≡ n
neg_part-neg n = ground arith
