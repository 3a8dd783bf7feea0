-- ===== src/Riscv/Invariant.antt =====
-- What every instruction keeps: registers and pc are words, $zero is 0, and pmem holds bytes.
use rv32i.Base.{ℕ, ◌%◌, ◌<◌, ◌≡◌, refl, arith, Option, none, some, ok}
use rv32i.Base.Bits.{bit_and-lt, bit_or-lt, bit_xor-lt}
use rv32i.Word.{u32, bits, sext}
use rv32i.Machine.{Machine, pure, ◌>>◌, check_reg_idx, gpr_write}
use rv32i.Machine.Ensures.{Ensures, returned, bind, value, holds}
use rv32i.Pattern.{select}
use rv32i.Riscv.Table.{InstType, Op, InstRow, instpats}
use rv32i.Riscv.Exec.{
  Decode, Operands, decode_operand, execute, run_row, decode_exec, isa_exec_once,
}
use rv32i.Riscv.Bounds.{
  add32-lt, sub32-lt, mul32-lt, shl32-lt, mulh32-lt, shr32-lt, sar32-lt, of_bool-lt, div_s32-lt,
  rem_s32-lt, div_u32-lt, rem_u32-lt, imm-lt,
}
use rv32i.Riscv.Bodies.{
  IsMachine, IsDecode, AreOperands, Done, gpr_read-Ensures, write_back-Ensures,
  write_back_outcome-Ensures, branch-Ensures, jump-Ensures, load-Ensures, store-Ensures,
  halt-Ensures, inst_fetch-Ensures, invalid_inst-Ensures,
}

-- The operands of each type are words.
decode_operand-Ensures :
    (x : ℕ) (t : InstType) {m : Machine}
    → IsMachine m
    → Ensures (λ o m'. AreOperands o × IsMachine m') (decode_operand x t m)
unfolding decode_operand
decode_operand-Ensures x InstType.r k = bind _ (gpr_read-Ensures k (bits x 19 15)) λ a m₁ p.
    bind _ (gpr_read-Ensures p.1 (bits x 24 20))
      λ b m₂ q. returned (record { src1_lt = p.0; src2_lt = q.0; imm_lt = omega arith }, q.1)
decode_operand-Ensures x InstType.i k =
    bind _ (gpr_read-Ensures k (bits x 19 15)) λ a m₁ p.
      returned (record { src1_lt = p.0; src2_lt = omega arith; imm_lt = (imm-lt x).0 }, p.1)
decode_operand-Ensures x InstType.s k = bind _ (gpr_read-Ensures k (bits x 19 15)) λ a m₁ p.
    bind _ (gpr_read-Ensures p.1 (bits x 24 20))
      λ b m₂ q. returned (record { src1_lt = p.0; src2_lt = q.0; imm_lt = (imm-lt x).2 }, q.1)
decode_operand-Ensures x InstType.b k = bind _ (gpr_read-Ensures k (bits x 19 15)) λ a m₁ p.
    bind _ (gpr_read-Ensures p.1 (bits x 24 20))
      λ b m₂ q. returned (record { src1_lt = p.0; src2_lt = q.0; imm_lt = (imm-lt x).3 }, q.1)
decode_operand-Ensures x InstType.u k =
    returned (record { src1_lt = omega arith; src2_lt = omega arith; imm_lt = (imm-lt x).1 }, k)
decode_operand-Ensures x InstType.j k =
    returned (record { src1_lt = omega arith; src2_lt = omega arith; imm_lt = (imm-lt x).4 }, k)
decode_operand-Ensures x InstType.n k =
    returned (record { src1_lt = omega arith; src2_lt = omega arith; imm_lt = omega arith }, k)

-- Each body keeps words words, whatever it computes.
execute-Ensures :
    (op : Op) {s : Decode} (o : Operands) {m : Machine}
    → IsDecode s
    → AreOperands o
    → IsMachine m
    → Ensures Done (execute op s o m)
unfolding execute
execute-Ensures Op.auipc {s} o d a k = write_back-Ensures d k _ _ (add32-lt _ _)
execute-Ensures Op.lbu {s} o d a k = load-Ensures d k _ _ 1 (λ v. v) (λ v h. omega arith)
execute-Ensures Op.sb {s} o d a k = store-Ensures d k _ _ _
execute-Ensures Op.add {s} o d a k = write_back-Ensures d k _ _ (add32-lt _ _)
execute-Ensures Op.sub {s} o d a k = write_back-Ensures d k _ _ (sub32-lt _ _)
execute-Ensures Op.and {s} o d a k = write_back-Ensures d k _ _ (bit_and-lt 32 _ _ a.src1_lt)
execute-Ensures Op.or {s} o d a k =
    write_back-Ensures d k _ _ (bit_or-lt 32 _ _ a.src1_lt a.src2_lt)
execute-Ensures Op.xor {s} o d a k =
    write_back-Ensures d k _ _ (bit_xor-lt 32 _ _ a.src1_lt a.src2_lt)
execute-Ensures Op.sll {s} o d a k = write_back-Ensures d k _ _ (shl32-lt _ _)
execute-Ensures Op.srl {s} o d a k = write_back-Ensures d k _ _ (shr32-lt _ _ a.src1_lt)
execute-Ensures Op.sra {s} o d a k = write_back-Ensures d k _ _ (sar32-lt _ _ a.src1_lt)
execute-Ensures Op.slt {s} o d a k = write_back-Ensures d k _ _ (of_bool-lt _)
execute-Ensures Op.sltu {s} o d a k = write_back-Ensures d k _ _ (of_bool-lt _)
execute-Ensures Op.mul {s} o d a k = write_back-Ensures d k _ _ (mul32-lt _ _)
execute-Ensures Op.mulh {s} o d a k = write_back-Ensures d k _ _ (mulh32-lt _ _)
execute-Ensures Op.div {s} o d a k =
    write_back_outcome-Ensures d k _ _ (div_s32-lt o.src1 o.src2 a.src1_lt)
execute-Ensures Op.divu {s} o d a k =
    write_back_outcome-Ensures d k _ _ (div_u32-lt o.src1 o.src2 a.src1_lt)
execute-Ensures Op.rem {s} o d a k =
    write_back_outcome-Ensures d k _ _ (rem_s32-lt o.src1 o.src2 a.src1_lt)
execute-Ensures Op.remu {s} o d a k =
    write_back_outcome-Ensures d k _ _ (rem_u32-lt o.src1 o.src2 a.src1_lt)
execute-Ensures Op.addi {s} o d a k = write_back-Ensures d k _ _ (add32-lt _ _)
execute-Ensures Op.andi {s} o d a k = write_back-Ensures d k _ _ (bit_and-lt 32 _ _ a.src1_lt)
execute-Ensures Op.ori {s} o d a k =
    write_back-Ensures d k _ _ (bit_or-lt 32 _ _ a.src1_lt a.imm_lt)
execute-Ensures Op.xori {s} o d a k =
    write_back-Ensures d k _ _ (bit_xor-lt 32 _ _ a.src1_lt a.imm_lt)
execute-Ensures Op.slli {s} o d a k = write_back-Ensures d k _ _ (shl32-lt _ _)
execute-Ensures Op.srli {s} o d a k = write_back-Ensures d k _ _ (shr32-lt _ _ a.src1_lt)
execute-Ensures Op.srai {s} o d a k = write_back-Ensures d k _ _ (sar32-lt _ _ a.src1_lt)
execute-Ensures Op.slti {s} o d a k = write_back-Ensures d k _ _ (of_bool-lt _)
execute-Ensures Op.sltiu {s} o d a k = write_back-Ensures d k _ _ (of_bool-lt _)
execute-Ensures Op.lw {s} o d a k = load-Ensures d k _ _ 4 (λ v. v) (λ v h. omega arith)
execute-Ensures Op.lh {s} o d a k =
    load-Ensures d k _ _ 2 (λ v. sext v 16 % u32) (λ v h. omega arith)
execute-Ensures Op.lhu {s} o d a k = load-Ensures d k _ _ 2 (λ v. v) (λ v h. omega arith)
execute-Ensures Op.jalr {s} o d a k = jump-Ensures d k _ _ (add32-lt _ _)
execute-Ensures Op.sw {s} o d a k = store-Ensures d k _ _ _
execute-Ensures Op.sh {s} o d a k = store-Ensures d k _ _ _
execute-Ensures Op.sb_masked {s} o d a k = store-Ensures d k _ _ _
execute-Ensures Op.lui {s} o d a k = write_back-Ensures d k _ _ a.imm_lt
execute-Ensures Op.beq {s} o d a k = branch-Ensures d k _ _
execute-Ensures Op.bne {s} o d a k = branch-Ensures d k _ _
execute-Ensures Op.blt {s} o d a k = branch-Ensures d k _ _
execute-Ensures Op.bge {s} o d a k = branch-Ensures d k _ _
execute-Ensures Op.bltu {s} o d a k = branch-Ensures d k _ _
execute-Ensures Op.bgeu {s} o d a k = branch-Ensures d k _ _
execute-Ensures Op.jal {s} o d a k = jump-Ensures d k _ _ (add32-lt _ _)
execute-Ensures Op.ebreak {s} o d a k = halt-Ensures d k 10
execute-Ensures Op.inv {s} o d a k =
    bind _ (invalid_inst-Ensures s.pc k) λ _ m' k'. returned (d, k')

-- The state behind an instruction: $zero has been reset.
abbrev pub Stepped : Decode → Machine → Type 0
Stepped s m = IsDecode s × IsMachine m × (m.gpr 0 ≡ 0)

pub reset_zero :
    {s : Decode} {m : Machine} → Done s m → Ensures Stepped ((do gpr_write 0 0; pure s) m)
unfolding gpr_write check_reg_idx
reset_zero dk =
    returned (dk.0, record { words = λ n. ground (arith, dk.1.words n); bytes = dk.1.bytes }, refl)

run_row-Ensures :
    (r : Option InstRow) {s : Decode} {m : Machine}
    → IsDecode s
    → IsMachine m
    → Ensures Stepped (run_row r s m)
unfolding run_row
run_row-Ensures none d k = reset_zero (d, k)
run_row-Ensures (some r) {s} d k =
    bind _ (decode_operand-Ensures s.inst r.operands k)
      λ o m₁ p. bind _ (execute-Ensures r.op o d p.0 p.1) λ s₂ m₂ dk. reset_zero dk

decode_exec-Ensures :
    (s : Decode) {m : Machine}
    → s.pc < u32
    → s.snpc < u32
    → IsMachine m
    → Ensures Stepped (decode_exec s m)
unfolding decode_exec
decode_exec-Ensures s {m} pc_lt snpc_lt k =
    value (select instpats s.inst)
      λ r e. run_row-Ensures r (record { pc_lt = pc_lt; snpc_lt = snpc_lt; dnpc_lt = snpc_lt }) k

pub isa_exec_once-Ensures :
    (s : Decode) {m : Machine} → s.pc < u32 → IsMachine m → Ensures Stepped (isa_exec_once s m)
unfolding isa_exec_once
isa_exec_once-Ensures s pc_lt k =
    bind _ (inst_fetch-Ensures s.snpc 4 k)
      λ r m₁ p. decode_exec-Ensures (record s { inst = r.0; snpc = r.1 }) pc_lt p.0 p.1

-- One instruction, fetched, decoded and executed on a machine whose registers are words and whose
-- memory cells are bytes: where it returns, they are words and bytes again, $zero is 0, and the
-- next program counter is a word.
pub isa_exec_once-IsMachine :
    (s : Decode) (m : Machine) {s' : Decode} {m' : Machine}
    → s.pc < u32
    → IsMachine m
    → isa_exec_once s m ≡ ok (s', m')
    → (s'.dnpc < u32) × IsMachine m' × (m'.gpr 0 ≡ 0)
isa_exec_once-IsMachine s m pc_lt k e =
    let (d, k', z) = holds (isa_exec_once-Ensures s pc_lt k) e in (d.dnpc_lt, k', z)
