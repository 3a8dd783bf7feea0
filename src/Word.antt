-- ===== src/Word.antt =====
-- 32-bit words: the arithmetic of uint32_t and int32_t, and BITS and SEXT of
-- ysyx-workbench/nemu/include/macro.h.
use rv32i.Base.{ℕ, ◌+◌, ◌-◌, ◌*◌, ◌/◌, ◌%◌, ◌^◌, Bool, ltb, if◌then◌else◌}

abbrev pub u32 : ℕ
u32 = 2 ^ 32

abbrev pub u64 : ℕ
u64 = 2 ^ 64

-- uint32_t addition, subtraction, multiplication and negation.
unfoldable pub add32 : ℕ → ℕ → ℕ
add32 a b = (a + b) % u32

unfoldable pub sub32 : ℕ → ℕ → ℕ
sub32 a b = (a + u32 - b) % u32

unfoldable pub mul32 : ℕ → ℕ → ℕ
mul32 a b = a * b % u32

unfoldable pub neg32 : ℕ → ℕ
neg32 a = (u32 - a) % u32

-- BITS(x, hi, lo); BITMASK(n) keeps the lowest n bits.
abbrev pub bits : ℕ → ℕ → ℕ → ℕ
bits x hi lo = x / 2 ^ lo % 2 ^ (hi - lo + 1)

-- SEXT(x, len): the lowest len bits as a two's complement number, in 64 bits.
unfoldable pub sext : ℕ → ℕ → ℕ
sext x len = let n = x % 2 ^ len in if ltb n (2 ^ (len - 1)) then n else n + u64 - 2 ^ len

-- A comparison of int32_t: flipping the sign bit turns it into one of uint32_t.
unfoldable pub slt32 : ℕ → ℕ → Bool
slt32 a b = ltb ((a + 2 ^ 31) % u32) ((b + 2 ^ 31) % u32)

-- x << k and x >> k of uint32_t, for k below 32, and >> of int32_t, which rounds down.
unfoldable pub shl32 : ℕ → ℕ → ℕ
shl32 x k = x * 2 ^ k % u32

unfoldable pub shr32 : ℕ → ℕ → ℕ
shr32 x k = x / 2 ^ k

unfoldable pub sar32 : ℕ → ℕ → ℕ
sar32 x k = if ltb x (2 ^ 31) then x / 2 ^ k else u32 - 1 - (u32 - 1 - x) / 2 ^ k

-- The absolute value of an int32_t, as an unsigned number.
unfoldable pub magnitude : ℕ → ℕ
magnitude x = if ltb x (2 ^ 31) then x else u32 - x
