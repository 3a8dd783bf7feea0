-- ===== src/Loongarch/Invariant.antt =====
-- What every loongarch32r instruction keeps.
use rv32i.Base.{ℕ, ◌<◌, ◌≡◌, arith, ok}
use rv32i.Word.{u32, bits, add32, sext}
use rv32i.Machine.{Machine, set_nemu_state}
use rv32i.Machine.Ensures.{Ensures, returned, bind, holds}
use rv32i.Riscv.Bounds.{add32-lt}
use rv32i.Riscv.Exec.{Decode, Operands}
use rv32i.Riscv.Bodies.{
  IsMachine, IsDecode, AreOperands, Done, gpr_read-Ensures, write_back-Ensures, load-Ensures,
  store-Ensures, halt-Ensures, invalid_inst-Ensures,
}
use rv32i.Guest.Invariant.{AreBodies, isa_exec_once-Ensures}
use rv32i.Loongarch.Exec.{InstType, Op, instpats, decode_operand, execute, isa_exec_once}

decode_operand-Ensures :
    (x : ℕ) (t : InstType) {m : Machine}
    → IsMachine m
    → Ensures (λ o m'. AreOperands o × IsMachine m') (decode_operand x t m)
unfolding decode_operand sext
decode_operand-Ensures x InstType.ri20 k =
    bind _ (gpr_read-Ensures k (bits x 9 5)) λ a m₁ p.
      returned (record { src1_lt = p.0; src2_lt = omega arith; imm_lt = omega arith }, p.1)
decode_operand-Ensures x InstType.ri12 k =
    bind _ (gpr_read-Ensures k (bits x 9 5)) λ a m₁ p.
      returned (record { src1_lt = p.0; src2_lt = omega arith; imm_lt = omega arith }, p.1)
decode_operand-Ensures x InstType.n k =
    returned (record { src1_lt = omega arith; src2_lt = omega arith; imm_lt = omega arith }, k)

execute-Ensures :
    (op : Op) {s : Decode} (o : Operands) {m : Machine}
    → IsDecode s
    → AreOperands o
    → IsMachine m
    → Ensures Done (execute op s o m)
unfolding execute set_nemu_state
execute-Ensures Op.pcaddu12i {s} o d a k =
    write_back-Ensures d k o.rd (add32 s.pc o.imm) (add32-lt s.pc o.imm)
execute-Ensures Op.ld_w o d a k =
    load-Ensures d k o.rd (add32 o.src1 o.imm) 4 (λ v. v) (λ v h. omega arith)
execute-Ensures Op.st_w o d a k =
    bind _ (gpr_read-Ensures k o.rd) λ v m₁ p. store-Ensures d p.1 (add32 o.src1 o.imm) 4 v
execute-Ensures Op.break_ o d a k = halt-Ensures d k 4
execute-Ensures Op.inv {s} o d a k =
    bind _ (invalid_inst-Ensures s.pc k) λ _ m' k'. returned (d, k')

bodies : AreBodies decode_operand execute
bodies = record { operands = decode_operand-Ensures; bodies = execute-Ensures }

-- One loongarch32r instruction on a machine whose registers are words and whose memory cells are bytes:
-- where it returns, they are words and bytes again, $zero is 0, and the next program counter is a
-- word.
pub isa_exec_once-IsLoongarchMachine :
    (s : Decode) (m : Machine) {s' : Decode} {m' : Machine}
    → s.pc < u32
    → IsMachine m
    → isa_exec_once s m ≡ ok (s', m')
    → (s'.dnpc < u32) × IsMachine m' × (m'.gpr 0 ≡ 0)
isa_exec_once-IsLoongarchMachine s m pc_lt k e =
    let (d, k', z) =
      holds (isa_exec_once-Ensures instpats decode_operand execute bodies s pc_lt k) e in
    (d.dnpc_lt, k', z)
