-- ===== src/Riscv/Alu.antt =====
-- The arithmetic of the bodies of ysyx-workbench/nemu/src/isa/riscv32/inst.c that is more than
-- one operator of C on uint32_t.
use rv32i.Base.{
  ℕ, ◌-◌, ◌*◌, ◌/◌, ◌%◌, ◌^◌, Bool, true, false, ◌==◌, if◌then◌else◌, ltb, Outcome, ok, fail,
  host_divide,
}
use rv32i.Word.{u32, u64, sext, neg32, magnitude}

-- (SEXT(a, 32) * SEXT(b, 32)) >> 32, in uint64_t, cut to word_t.
unfoldable pub mulh32 : ℕ → ℕ → ℕ
unfolding sext
mulh32 a b = sext a 32 * sext b 32 % u64 / 2 ^ 32 % u32

-- int32_t division is undefined, and stops the host, for a zero divisor and for -2^31 / -1.
unfoldable pub divides : ℕ → ℕ → Bool
divides a b =
    if b == 0 then false else (if a == 2 ^ 31 then (if b == u32 - 1 then false else true) else true)

abbrev pub is_negative : ℕ → Bool
is_negative a = if ltb a (2 ^ 31) then false else true

-- The quotient is rounded to zero, the remainder has the dividend's sign.
unfoldable pub div_s32 : ℕ → ℕ → Outcome ℕ
unfolding divides magnitude neg32
div_s32 a b =
    let q = magnitude a / magnitude b in
    if divides a b
    then ok (
        if is_negative a
        then (if is_negative b then q % u32 else neg32 q)
        else (if is_negative b then neg32 q else q))
    else fail host_divide

unfoldable pub rem_s32 : ℕ → ℕ → Outcome ℕ
unfolding divides magnitude neg32
rem_s32 a b =
    let r = magnitude a % magnitude b in
    if divides a b then ok (if is_negative a then neg32 r else r) else fail host_divide

-- uint32_t division stops the host for a zero divisor.
unfoldable pub div_u32 : ℕ → ℕ → Outcome ℕ
div_u32 a b = if b == 0 then fail host_divide else ok (a / b)

unfoldable pub rem_u32 : ℕ → ℕ → Outcome ℕ
rem_u32 a b = if b == 0 then fail host_divide else ok (a % b)
