-- ===== src/Loongarch/Exec.antt =====
-- decode_operand, the table, decode_exec and isa_exec_once of ysyx-workbench/nemu/src/isa/loongarch32r/inst.c,
-- and init_isa of init.c.
use rv32i.Base.{ℕ, ◌*◌, ◌%◌, ◌^◌, List, [], ◌∷◌, codes}
use rv32i.Word.{u32, u64, add32, bits, sext, shl32}
use rv32i.Machine.{Machine, RunState, Command, pure, ◌>>=◌, ◌>>◌, gpr_read, set_nemu_state}
use rv32i.Pattern.{Row, row}
use rv32i.Riscv.Exec.{Decode, Operands, operands, invalid_inst, write_back, load, store}
use rv32i.Guest

-- TYPE_1RI20, TYPE_2RI12 and TYPE_N.
pub data InstType : Type 0 where
  ri20 ri12 n : InstType

-- The names of the rows.
pub data Op : Type 0 where
  pcaddu12i ld_w st_w break_ inv : Op

abbrev pub InstRow : Type 0
InstRow = Row InstType Op

unfoldable pub instpats : List InstRow
instpats =
    row (codes "0001110 ????? ????? ????? ????? ?????") InstType.ri20 Op.pcaddu12i
    ∷ row (codes "0010100010 ???????????? ????? ?????") InstType.ri12 Op.ld_w
    ∷ row (codes "0010100110 ???????????? ????? ?????") InstType.ri12 Op.st_w
    ∷ row (codes "0000 0000 0010 10100 ????? ????? ?????") InstType.n Op.break_
    ∷ row (codes "????????????????? ????? ????? ?????") InstType.n Op.inv
    ∷ []

unfoldable pub decode_operand : ℕ → InstType → Command Operands
unfolding gpr_read sext
decode_operand i InstType.ri20 = do
  a ← gpr_read (bits i 9 5)
  pure (operands (bits i 4 0) a 0 (sext (bits i 24 5) 20 * 2 ^ 12 % u64 % u32))
decode_operand i InstType.ri12 = do
  a ← gpr_read (bits i 9 5)
  pure (operands (bits i 4 0) a 0 (sext (bits i 21 10) 12 % u32))
decode_operand i InstType.n = pure (operands (bits i 4 0) 0 0 0)

-- The bodies.
unfoldable pub execute : Op → Decode → Operands → Command Decode
unfolding write_back load store gpr_read set_nemu_state invalid_inst add32 shl32
execute Op.pcaddu12i s o = write_back s o.rd (add32 s.pc o.imm)
execute Op.ld_w s o = load s o.rd (add32 o.src1 o.imm) 4 (λ v. v)
execute Op.st_w s o = do v ← gpr_read o.rd; store s (add32 o.src1 o.imm) 4 v
execute Op.break_ s o = do code ← gpr_read 4; set_nemu_state RunState.end s.pc code; pure s
execute Op.inv s o = do invalid_inst s.pc; pure s

abbrev pub isa_exec_once : Decode → Command Decode
isa_exec_once = Guest.isa_exec_once instpats decode_operand execute

-- The built-in image.
unfoldable pub img : List ℕ
img = 0x1c00000c ∷ 0x29804180 ∷ 0x28804184 ∷ 0x002a0000 ∷ 0xdeadbeef ∷ []

abbrev pub init_isa : Machine → Machine
init_isa = Guest.init_isa img
