-- ===== src/Mips/Exec.antt =====
-- decode_operand, the table, decode_exec and isa_exec_once of ysyx-workbench/nemu/src/isa/mips32/inst.c,
-- and init_isa of init.c.
use rv32i.Base.{ℕ, ◌%◌, List, [], ◌∷◌, codes}
use rv32i.Word.{u32, add32, bits, sext, shl32}
use rv32i.Machine.{Machine, RunState, Command, pure, ◌>>=◌, ◌>>◌, gpr_read, set_nemu_state}
use rv32i.Pattern.{Row, row}
use rv32i.Riscv.Exec.{Decode, Operands, operands, invalid_inst, write_back, load, store}
use rv32i.Guest

-- TYPE_I to TYPE_N.
pub data InstType : Type 0 where
  i u n : InstType

-- The names of the rows.
pub data Op : Type 0 where
  lui lw sw sdbbp inv : Op

abbrev pub InstRow : Type 0
InstRow = Row InstType Op

unfoldable pub instpats : List InstRow
instpats =
    row (codes "001111 ????? ????? ????? ????? ??????") InstType.u Op.lui
    ∷ row (codes "100011 ????? ????? ????? ????? ??????") InstType.i Op.lw
    ∷ row (codes "101011 ????? ????? ????? ????? ??????") InstType.i Op.sw
    ∷ row (codes "011100 ????? ????? ????? ????? 111111") InstType.n Op.sdbbp
    ∷ row (codes "?????? ????? ????? ????? ????? ??????") InstType.n Op.inv
    ∷ []

unfoldable pub decode_operand : ℕ → InstType → Command Operands
unfolding gpr_read sext
decode_operand x InstType.i = do
  a ← gpr_read (bits x 25 21)
  pure (operands (bits x 20 16) a 0 (sext (bits x 15 0) 16 % u32))
decode_operand x InstType.u = do
  a ← gpr_read (bits x 25 21)
  pure (operands (bits x 20 16) a 0 (bits x 15 0))
decode_operand x InstType.n = pure (operands (bits x 15 11) 0 0 0)

-- The bodies.
unfoldable pub execute : Op → Decode → Operands → Command Decode
unfolding write_back load store gpr_read set_nemu_state invalid_inst add32 shl32
execute Op.lui s o = write_back s o.rd (shl32 o.imm 16)
execute Op.lw s o = load s o.rd (add32 o.src1 o.imm) 4 (λ v. v)
execute Op.sw s o = do v ← gpr_read o.rd; store s (add32 o.src1 o.imm) 4 v
execute Op.sdbbp s o = do code ← gpr_read 2; set_nemu_state RunState.end s.pc code; pure s
execute Op.inv s o = do invalid_inst s.pc; pure s

abbrev pub isa_exec_once : Decode → Command Decode
isa_exec_once = Guest.isa_exec_once instpats decode_operand execute

-- The built-in image.
unfoldable pub img : List ℕ
img = 0x3c048000 ∷ 0xac800000 ∷ 0x8c820000 ∷ 0x7000003f ∷ []

abbrev pub init_isa : Machine → Machine
init_isa = Guest.init_isa img
