-- ===== src/Base/Int.antt =====
-- Signed integers over the native numbers, with the shift and the mask of block positions.
use Prim.Native.Nat.{ℕ, suc, ◌+◌, ◌-◌, ◌/◌, ◌%◌}
use hexahedra.Base.Tests.{leb, if◌then◌else◌}

-- `negsuc n` is -(n + 1).
pub data ℤ : Type 0 where
  pos : ℕ → ℤ
  negsuc : ℕ → ℤ

abbrev pub pos_part : ℤ → ℕ
pos_part (pos n) = n
pos_part (negsuc n) = 0

abbrev pub neg_part : ℤ → ℕ
neg_part (pos n) = 0
neg_part (negsuc n) = suc n

abbrev sub_ℕ : ℕ → ℕ → ℤ
sub_ℕ a b = if leb b a then pos (a - b) else negsuc (b - a - 1)

infixl 65 ◌+ℤ◌
unfoldable pub ◌+ℤ◌ : ℤ → ℤ → ℤ
a +ℤ b = sub_ℕ (pos_part a + pos_part b) (neg_part a + neg_part b)

-- `v >> 4` and `v & 15` of a number in two's complement
unfoldable pub shift_right4 : ℤ → ℤ
shift_right4 (pos n) = pos (n / 16)
shift_right4 (negsuc n) = negsuc (n / 16)

unfoldable pub low4 : ℤ → ℕ
low4 (pos n) = n % 16
low4 (negsuc n) = 15 - n % 16

-- `(uint8_t)v`
unfoldable pub to_u8 : ℤ → ℕ
to_u8 (pos n) = n % 256
to_u8 (negsuc n) = 255 - n % 256
