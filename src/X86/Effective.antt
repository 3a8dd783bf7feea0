-- ===== src/X86/Effective.antt =====
-- The addressing modes of the encoding: the effective address behind a ModR/M byte, and the number of
-- bytes that the mode takes.
use rv32i.Base.{ℕ, ◌+◌, ◌-◌, ◌*◌, ◌/◌, ◌%◌, ◌^◌, Bool, ◌==◌, ◌&&◌, not, if◌then◌else◌, ltb}
use rv32i.Word.{u32}
use rv32i.Memory.{load_bytes}
use rv32i.X86.State.{Cpu86}
use rv32i.X86.Operand.{ModRm}

abbrev pub long : Cpu86 → ℕ → ℕ
long c r = (c.gpr r).long

-- The register of the base, which is in the SIB byte where there is one.
abbrev pub base_of : ModRm → ℕ → ℕ
base_of m b = if m.r_m == 4 then b % 8 else m.r_m

-- Without a displacement of its own, %ebp as the base stands for a displacement of four bytes.
abbrev pub has_base : ModRm → ℕ → Bool
has_base m b = not (m.mode == 0 && base_of m b == 5)

abbrev pub has_index : ModRm → ℕ → Bool
has_index m b = m.r_m == 4 && not (b / 8 % 8 == 4)

abbrev pub disp_size : ModRm → ℕ → ℕ
disp_size m b = if m.mode == 1 then 1 else if m.mode == 2 then 4 else if has_base m b then 0 else 4

abbrev pub sib_size : ModRm → ℕ
sib_size m = if m.r_m == 4 then 1 else 0

-- The displacement: none, a signed byte or a word.
abbrev pub disp_at : (ℕ → ℕ) → ℕ → ℕ → ℕ
disp_at mem off n =
    if n == 0
    then 0
    else if n == 1
    then (if ltb (mem off) 128 then mem off else mem off + u32 - 256)
    else load_bytes 4 mem off

-- Base, scaled index and displacement, for a ModR/M byte whose tail is at `off`.
unfoldable pub effective : Cpu86 → ModRm → ℕ → ℕ
effective c m off =
    let b = c.pmem off in
    ((if has_base m b then long c (base_of m b) else 0)
      + (if has_index m b then long c (b / 8 % 8) * 2 ^ (b / 64 % 4) else 0)
      + disp_at c.pmem (off + sib_size m) (disp_size m b))
    % u32

unfoldable pub tail_size : Cpu86 → ModRm → ℕ → ℕ
tail_size c m off = sib_size m + disp_size m (c.pmem off)
