-- ===== src/Base/Int.antt =====
-- Signed integers over the native numbers, under the library's names, and the integer that a word
-- stands for in two's complement.
use Prim.Native.Nat.{ℕ, suc, ◌-◌, ◌*◌, ◌^◌}
use rv32i.Base.Tests.{ltb, ◌==◌, if◌then◌else◌}

-- `negsuc n` is -(n + 1).
pub data ℤ : Type 0 where
  pos : ℕ → ℤ
  negsuc : ℕ → ℤ

-- -n, as an integer.
abbrev pub neg_ℕ : ℕ → ℤ
neg_ℕ n = if n == 0 then pos 0 else negsuc (n - 1)

infixl 70 ◌*ℤ◌
unfoldable pub ◌*ℤ◌ : ℤ → ℤ → ℤ
pos m *ℤ pos n = pos (m * n)
pos m *ℤ negsuc n = neg_ℕ (m * suc n)
negsuc m *ℤ pos n = neg_ℕ (suc m * n)
negsuc m *ℤ negsuc n = pos (suc m * suc n)

-- The integer of a word of `w` bits: 2 ^ w less where the sign bit is set.
unfoldable pub signed : ℕ → ℕ → ℤ
signed w n = if ltb n (2 ^ (w - 1)) then pos n else negsuc (2 ^ w - 1 - n)
