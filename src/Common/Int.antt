-- ===== src/Common/Int.antt =====
-- Signed integers over the native numbers, and Go's 64-bit `int`.
use Prim.Native.Nat.{ℕ, suc, ◌+◌, ◌-◌, ◌%◌, ◌^◌}
use mathlib.Core.Bool.{Bool, ◌&&◌}
use dhcp_batcher.Common.Tests.{ltb, leb, ◌==◌, if◌then◌else◌}

-- `negsuc n` is -(n + 1).
pub data ℤ : Type 0 where
  pos : ℕ → ℤ
  negsuc : ℕ → ℤ

abbrev pub pos_part : ℤ → ℕ
pos_part (pos n) = n
pos_part (negsuc n) = 0

abbrev pub neg_part : ℤ → ℕ
neg_part (pos n) = 0
neg_part (negsuc n) = suc n

-- a - b, as an integer.
abbrev pub sub_ℕ : ℕ → ℕ → ℤ
sub_ℕ a b = if leb b a then pos (a - b) else negsuc (b - a - 1)

abbrev pub ltb_ℤ : ℤ → ℤ → Bool
ltb_ℤ a b = ltb (pos_part a + neg_part b) (pos_part b + neg_part a)

abbrev pub eqb_ℤ : ℤ → ℤ → Bool
eqb_ℤ a b = pos_part a == pos_part b && neg_part a == neg_part b

-- The value that a 64-bit register holds for an integer.
unfoldable pub int64 : ℤ → ℤ
int64 (pos n) = let u = n % 2 ^ 64 in if ltb u (2 ^ 63) then pos u else negsuc (2 ^ 64 - 1 - u)
int64 (negsuc n) = let u = n % 2 ^ 64 in if ltb u (2 ^ 63) then negsuc u else pos (2 ^ 64 - 1 - u)
