-- ===== src/Riscv/Bounds.antt =====
-- The results of the instructions' arithmetic, and the immediates, are words.
use native.Mathlib.Nat.{div-le_self, mod-le}
use rv32i.Base.{ℕ, ◌^◌, ◌<◌, ◌≡◌, arith, Bool, true, false, ok, of_bool}
use rv32i.Word.{u32, add32, sub32, mul32, magnitude, shl32, shr32, sar32}
use rv32i.Riscv.Alu.{mulh32, div_s32, rem_s32, div_u32, rem_u32}
use rv32i.Riscv.Exec.{imm_i, imm_u, imm_s, imm_b, imm_j}

pub add32-lt : (a b : ℕ) → add32 a b < u32
unfolding add32
add32-lt a b = omega arith

pub sub32-lt : (a b : ℕ) → sub32 a b < u32
unfolding sub32
sub32-lt a b = omega arith

pub mul32-lt : (a b : ℕ) → mul32 a b < u32
unfolding mul32
mul32-lt a b = omega arith

pub shl32-lt : (a n : ℕ) → shl32 a n < u32
unfolding shl32
shl32-lt a n = omega arith

pub mulh32-lt : (a b : ℕ) → mulh32 a b < u32
unfolding mulh32
mulh32-lt a b = omega arith

pub shr32-lt : (x n : ℕ) → x < u32 → shr32 x n < u32
unfolding shr32
shr32-lt x n h = omega (arith, div-le_self x (2 ^ n))

pub sar32-lt : (x n : ℕ) → x < u32 → sar32 x n < u32
unfolding sar32
sar32-lt x n h = ground (arith, div-le_self x (2 ^ n))

pub of_bool-lt : (b : Bool) → of_bool b < u32
of_bool-lt true = omega arith
of_bool-lt false = omega arith

pub div_s32-lt : (a b : ℕ) → a < u32 → (v : ℕ) → div_s32 a b ≡ ok v → v < u32
unfolding div_s32
div_s32-lt a b h v e = ground (arith, div-le_self (magnitude a) (magnitude b))

pub rem_s32-lt : (a b : ℕ) → a < u32 → (v : ℕ) → rem_s32 a b ≡ ok v → v < u32
unfolding rem_s32
rem_s32-lt a b h v e = ground (arith, mod-le (magnitude a) (magnitude b))

pub div_u32-lt : (a b : ℕ) → a < u32 → (v : ℕ) → div_u32 a b ≡ ok v → v < u32
unfolding div_u32
div_u32-lt a b h v e = ground (arith, div-le_self a b)

pub rem_u32-lt : (a b : ℕ) → a < u32 → (v : ℕ) → rem_u32 a b ≡ ok v → v < u32
unfolding rem_u32
rem_u32-lt a b h v e = ground (arith, mod-le a b)

-- The immediates are words.
pub imm-lt :
    (x : ℕ)
    → (imm_i x < u32) × (imm_u x < u32) × (imm_s x < u32) × (imm_b x < u32) × (imm_j x < u32)
unfolding imm_i imm_u imm_s imm_b imm_j
imm-lt x = (omega arith, omega arith, omega arith, omega arith, omega arith)
