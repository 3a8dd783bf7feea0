-- ===== src/Riscv/Exec.antt =====
-- decode_operand, decode_exec and isa_exec_once of ysyx-workbench/nemu/src/isa/riscv32/inst.c.
use rv32i.Base.{
  ℕ, ◌-◌, ◌*◌, ◌%◌, ◌^◌, Bool, ◌==◌, if◌then◌else◌, ltb, not, Option, none, some, Outcome, and_then,
  bit_and, bit_or, bit_xor, of_bool,
}
use rv32i.Word.{u32, u64, add32, sub32, mul32, bits, sext, slt32, shl32, shr32, sar32}
use rv32i.Machine.{RunState, Command, pure, ◌>>=◌, ◌>>◌, gpr_read, gpr_write, set_nemu_state}
use rv32i.Memory.{vaddr_read, vaddr_write, inst_fetch}
use rv32i.Pattern.{select}
use rv32i.Riscv.Table.{InstType, Op, InstRow, instpats}
use rv32i.Riscv.Alu.{mulh32, div_s32, rem_s32, div_u32, rem_u32}

pub record Decode : Type 0 where
  pub pc : ℕ
  pub snpc : ℕ
  pub dnpc : ℕ
  pub inst : ℕ

-- immI to immJ.
unfoldable pub imm_i : ℕ → ℕ
unfolding sext
imm_i i = sext (bits i 31 20) 12 % u32

unfoldable pub imm_u : ℕ → ℕ
unfolding sext
imm_u i = sext (bits i 31 12) 20 * 2 ^ 12 % u64 % u32

unfoldable pub imm_s : ℕ → ℕ
unfolding sext
imm_s i = bit_or (sext (bits i 31 25) 7 * 2 ^ 5 % u64) (bits i 11 7) % u32

unfoldable pub imm_b : ℕ → ℕ
unfolding sext
imm_b i =
    bit_or
      (bit_or (bit_or (sext (bits i 31 31) 1 * 2 ^ 12 % u64) (bits i 30 25 * 2 ^ 5))
        (bits i 11 8 * 2 ^ 1))
      (bits i 7 7 * 2 ^ 11)
    % u32

unfoldable pub imm_j : ℕ → ℕ
unfolding sext
imm_j i =
    bit_or
      (bit_or (bit_or (sext (bits i 31 31) 1 * 2 ^ 20 % u64) (bits i 30 21 * 2 ^ 1))
        (bits i 20 20 * 2 ^ 11))
      (bits i 19 12 * 2 ^ 12)
    % u32

pub record Operands : Type 0 where
  pub rd : ℕ
  pub src1 : ℕ
  pub src2 : ℕ
  pub imm : ℕ

abbrev pub operands : ℕ → ℕ → ℕ → ℕ → Operands
operands rd src1 src2 imm = record { rd = rd; src1 = src1; src2 = src2; imm = imm }

unfoldable pub decode_operand : ℕ → InstType → Command Operands
unfolding gpr_read imm_i imm_u imm_s imm_b imm_j
decode_operand i InstType.r = do
  a ← gpr_read (bits i 19 15)
  b ← gpr_read (bits i 24 20)
  pure (operands (bits i 11 7) a b 0)
decode_operand i InstType.i = do
  a ← gpr_read (bits i 19 15)
  pure (operands (bits i 11 7) a 0 (imm_i i))
decode_operand i InstType.s = do
  a ← gpr_read (bits i 19 15)
  b ← gpr_read (bits i 24 20)
  pure (operands (bits i 11 7) a b (imm_s i))
decode_operand i InstType.b = do
  a ← gpr_read (bits i 19 15)
  b ← gpr_read (bits i 24 20)
  pure (operands (bits i 11 7) a b (imm_b i))
decode_operand i InstType.u = pure (operands (bits i 11 7) 0 0 (imm_u i))
decode_operand i InstType.j = pure (operands (bits i 11 7) 0 0 (imm_j i))
decode_operand i InstType.n = pure (operands (bits i 11 7) 0 0 0)

-- INV: the two words at `pc` are fetched for the message.
unfoldable pub invalid_inst : ℕ → Command (Unit {0})
unfolding inst_fetch set_nemu_state
invalid_inst thispc = do
  (word₀, pc) ← inst_fetch thispc 4
  (word₁, pc') ← inst_fetch pc 4
  set_nemu_state RunState.abort thispc (u32 - 1)

-- R(rd) = v, in a body that leaves dnpc alone.
unfoldable pub write_back : Decode → ℕ → ℕ → Command Decode
unfolding gpr_write
write_back s rd v = do gpr_write rd v; pure s

-- R(rd) = v for a division, which may stop the host.
unfoldable pub write_back_outcome : Decode → ℕ → Outcome ℕ → Command Decode
unfolding write_back
write_back_outcome s rd o m = and_then o λ v. write_back s rd v m

-- s->dnpc = taken ? s->pc + imm : s->snpc.
unfoldable pub branch : Decode → Bool → ℕ → Command Decode
unfolding add32
branch s taken imm = pure (record s { dnpc = if taken then add32 s.pc imm else s.snpc })

-- R(rd) = Mr(addr, len), extended by `f`.
unfoldable pub load : Decode → ℕ → ℕ → ℕ → (ℕ → ℕ) → Command Decode
unfolding vaddr_read write_back
load s rd addr len f = do v ← vaddr_read addr len; write_back s rd (f v)

unfoldable pub store : Decode → ℕ → ℕ → ℕ → Command Decode
unfolding vaddr_write
store s addr len word = do vaddr_write addr len word; pure s

-- The bodies. In slti the signed word is compared with the unsigned imm, so both are unsigned.
unfoldable pub execute : Op → Decode → Operands → Command Decode
execute Op.auipc s o = write_back s o.rd (add32 s.pc o.imm)
execute Op.lbu s o = load s o.rd (add32 o.src1 o.imm) 1 (λ v. v)
execute Op.sb s o = store s (add32 o.src1 o.imm) 1 o.src2
execute Op.add s o = write_back s o.rd (add32 o.src1 o.src2)
execute Op.sub s o = write_back s o.rd (sub32 o.src1 o.src2)
execute Op.and s o = write_back s o.rd (bit_and o.src1 o.src2)
execute Op.or s o = write_back s o.rd (bit_or o.src1 o.src2)
execute Op.xor s o = write_back s o.rd (bit_xor o.src1 o.src2)
execute Op.sll s o = write_back s o.rd (shl32 o.src1 (o.src2 % 32))
execute Op.srl s o = write_back s o.rd (shr32 o.src1 (o.src2 % 32))
execute Op.sra s o = write_back s o.rd (sar32 o.src1 (o.src2 % 32))
execute Op.slt s o = write_back s o.rd (of_bool (slt32 o.src1 o.src2))
execute Op.sltu s o = write_back s o.rd (of_bool (ltb o.src1 o.src2))
execute Op.mul s o = write_back s o.rd (mul32 o.src1 o.src2)
execute Op.mulh s o = write_back s o.rd (mulh32 o.src1 o.src2)
execute Op.div s o = write_back_outcome s o.rd (div_s32 o.src1 o.src2)
execute Op.divu s o = write_back_outcome s o.rd (div_u32 o.src1 o.src2)
execute Op.rem s o = write_back_outcome s o.rd (rem_s32 o.src1 o.src2)
execute Op.remu s o = write_back_outcome s o.rd (rem_u32 o.src1 o.src2)
execute Op.addi s o = write_back s o.rd (add32 o.src1 o.imm)
execute Op.andi s o = write_back s o.rd (bit_and o.src1 o.imm)
execute Op.ori s o = write_back s o.rd (bit_or o.src1 o.imm)
execute Op.xori s o = write_back s o.rd (bit_xor o.src1 o.imm)
execute Op.slli s o = write_back s o.rd (shl32 o.src1 (o.imm % 32))
execute Op.srli s o = write_back s o.rd (shr32 o.src1 (o.imm % 32))
execute Op.srai s o = write_back s o.rd (sar32 o.src1 (o.imm % 32))
execute Op.slti s o = write_back s o.rd (of_bool (ltb o.src1 o.imm))
execute Op.sltiu s o = write_back s o.rd (of_bool (ltb o.src1 (o.imm % 2 ^ 12)))
execute Op.lw s o = load s o.rd (add32 o.src1 o.imm) 4 (λ v. v)
execute Op.lh s o = load s o.rd (add32 o.src1 o.imm) 2 (λ v. sext v 16 % u32)
execute Op.lhu s o = load s o.rd (add32 o.src1 o.imm) 2 (λ v. v)
execute Op.jalr s o = do gpr_write o.rd s.snpc; pure (record s { dnpc = add32 o.src1 o.imm })
execute Op.sw s o = store s (add32 o.src1 o.imm) 4 o.src2
execute Op.sh s o = store s (add32 o.src1 o.imm) 2 (o.src2 % 2 ^ 16)
execute Op.sb_masked s o = store s (add32 o.src1 o.imm) 1 (o.src2 % 2 ^ 8)
execute Op.lui s o = write_back s o.rd o.imm
execute Op.beq s o = branch s (o.src1 == o.src2) o.imm
execute Op.bne s o = branch s (not (o.src1 == o.src2)) o.imm
execute Op.blt s o = branch s (slt32 o.src1 o.src2) o.imm
execute Op.bge s o = branch s (not (slt32 o.src1 o.src2)) o.imm
execute Op.bltu s o = branch s (ltb o.src1 o.src2) o.imm
execute Op.bgeu s o = branch s (not (ltb o.src1 o.src2)) o.imm
execute Op.jal s o = do gpr_write o.rd s.snpc; pure (record s { dnpc = add32 s.pc o.imm })
execute Op.ebreak s o = do code ← gpr_read 10; set_nemu_state RunState.end s.pc code; pure s
execute Op.inv s o = do invalid_inst s.pc; pure s

-- INSTPAT_MATCH of the row, and the reset of $zero behind INSTPAT_END.
unfoldable pub run_row : Option InstRow → Decode → Command Decode
unfolding decode_operand execute gpr_write
run_row none s = do gpr_write 0 0; pure s
run_row (some row) s = do
  o ← decode_operand s.inst row.operands
  s' ← execute row.op s o
  gpr_write 0 0
  pure s'

unfoldable pub decode_exec : Decode → Command Decode
unfolding select run_row instpats
decode_exec s m =
    let s' = record s { dnpc = s.snpc } in
    and_then (select instpats s'.inst) λ row. run_row row s' m

unfoldable pub isa_exec_once : Decode → Command Decode
unfolding inst_fetch decode_exec
isa_exec_once s = do
  (inst, snpc) ← inst_fetch s.snpc 4
  decode_exec (record s { inst = inst; snpc = snpc })
