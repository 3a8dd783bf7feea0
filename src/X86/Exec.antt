-- ===== src/X86/Exec.antt =====
-- decode_operand, _2byte_esc and isa_exec_once of ysyx-workbench/nemu/src/isa/x86/inst.c.
use rv32i.Base.{
  ℕ, zero, suc, ◌%◌, Bool, true, false, ◌==◌, if◌then◌else◌, Option, none, some, fail, assertion,
  out_of_fuel, and_then,
}
use rv32i.Machine.{RunState}
use rv32i.Pattern.{select}
use rv32i.X86.State.{
  Decode, Run, pure, ◌>>=◌, ◌>>◌, reg_read, reg_write, mem_read, mem_write, x86_inst_fetch,
  set_nemu_state, invalid_inst,
}
use rv32i.X86.Operand.{decode_rm}
use rv32i.X86.Table.{InstType, Op, InstRow, instpats, esc_instpats}

-- rd, src1, addr, rs, gp_idx and imm.
pub record Operands : Type 0 where
  pub rd : Option ℕ
  pub src1 : ℕ
  pub addr : ℕ
  pub rs : Option ℕ
  pub gp_idx : ℕ
  pub imm : ℕ

abbrev pub no_operands : Operands
no_operands = record { rd = some 0; src1 = 0; addr = 0; rs = some 0; gp_idx = 0; imm = 0 }

-- The types that no row of the tables has end in the panic.
unfoldable pub decode_operand : Decode → ℕ → ℕ → InstType → Run (Operands × Decode)
unfolding x86_inst_fetch decode_rm reg_read
decode_operand s opcode w InstType.n = pure (no_operands, s)
decode_operand s opcode w InstType.i2r = do
  (imm, s') ← x86_inst_fetch s w
  pure (record no_operands { rd = some (opcode % 8); imm = imm }, s')
decode_operand s opcode w InstType.g2e = do
  (o, s') ← decode_rm s
  v ← reg_read o.reg w
  pure (record no_operands { rd = o.rm_reg; addr = o.rm_addr; rs = some o.reg; src1 = v }, s')
decode_operand s opcode w InstType.e2g = do
  (o, s') ← decode_rm s
  pure (record no_operands { rs = o.rm_reg; addr = o.rm_addr; rd = some o.reg }, s')
decode_operand s opcode w InstType.i2e = do
  (o, s') ← decode_rm s
  (imm, s'') ← x86_inst_fetch s' w
  pure (record no_operands { rd = o.rm_reg; addr = o.rm_addr; gp_idx = o.reg; imm = imm }, s'')
decode_operand s opcode w InstType.o2a = do
  (addr, s') ← x86_inst_fetch s 4
  pure (record no_operands { rd = some 0; addr = addr }, s')
decode_operand s opcode w InstType.a2o = do
  (addr, s') ← x86_inst_fetch s 4
  pure (record no_operands { rs = some 0; addr = addr }, s')
decode_operand s opcode w _ = λ c. fail assertion

-- Rw, where the register may be none.
unfoldable pub write_reg : Option ℕ → ℕ → ℕ → Run (Unit {0})
unfolding reg_write
write_reg none w v = λ c. fail assertion
write_reg (some r) w v = reg_write r w v

-- RMr and RMw: a register, or memory where there is none.
unfoldable pub rm_read : Option ℕ → ℕ → ℕ → Run ℕ
unfolding reg_read mem_read
rm_read none addr w = mem_read addr w
rm_read (some r) addr w = reg_read r w

unfoldable pub rm_write : Option ℕ → ℕ → ℕ → ℕ → Run (Unit {0})
unfolding reg_write mem_write
rm_write none addr w v = mem_write addr w v
rm_write (some r) addr w v = reg_write r w v

-- gp1(): there is only the default.
unfoldable pub gp1 : ℕ → Decode → Run (Unit {0})
unfolding invalid_inst
gp1 gp_idx s = invalid_inst s.pc

-- INSTPAT_MATCH of the row of _2byte_esc.
unfoldable pub esc_row : Option InstRow → Decode → Run Decode
unfolding invalid_inst
esc_row none s = pure s
esc_row (some row) s = do invalid_inst s.pc; pure (record s { dnpc = s.snpc })

unfoldable pub two_byte_esc : Decode → Run Decode
unfolding x86_inst_fetch select esc_instpats esc_row
two_byte_esc s = do
  (opcode, s') ← x86_inst_fetch s 1
  λ c. and_then (select esc_instpats opcode) λ row. esc_row row s' c

-- The bodies but for data_size.
unfoldable pub execute : Op → Decode → Operands → ℕ → Run Decode
unfolding two_byte_esc gp1 rm_read rm_write write_reg reg_read reg_write mem_read mem_write
    set_nemu_state invalid_inst
execute Op.two_byte_esc s o w = two_byte_esc s
execute Op.data_size s o w = pure s
execute Op.gp1 s o w = do gp1 o.gp_idx s; pure s
execute Op.mov_to_rm s o w = do rm_write o.rd o.addr w o.src1; pure s
execute Op.mov_from_rm s o w = do v ← rm_read o.rs o.addr w; write_reg o.rd w v; pure s
execute Op.load_a s o w = do v ← mem_read o.addr w; reg_write 0 w v; pure s
execute Op.store_a s o w = do v ← reg_read 0 w; mem_write o.addr w v; pure s
execute Op.mov_imm s o w = do write_reg o.rd w o.imm; pure s
execute Op.mov_imm_to_rm s o w = do rm_write o.rd o.addr w o.imm; pure s
execute Op.nemu_trap s o w = λ c. (do set_nemu_state RunState.end s.pc (c.named 0); pure s) c
execute Op.inv s o w = do invalid_inst s.pc; pure s

abbrev pub is_data_size : Op → Bool
is_data_size Op.data_size = true
is_data_size _ = false

-- int w = width == 0 ? (is_operand_size_16 ? 2 : 4) : width
abbrev pub width_of : ℕ → Bool → ℕ
width_of width is_operand_size_16 =
    if width == 0 then (if is_operand_size_16 then 2 else 4) else width

-- INSTPAT_MATCH, and what follows it: the end, or the label again.
unfoldable pub run_row : Option InstRow → ℕ → Bool → Decode → (Decode → Run Decode) → Run Decode
unfolding decode_operand execute
run_row none opcode is_operand_size_16 s again = pure s
run_row (some row) opcode is_operand_size_16 s again = do
  let w = width_of row.operands.1 is_operand_size_16
  (o, s') ← decode_operand s opcode w row.operands.0
  let s'' = record s' { dnpc = s'.snpc }
  elim (is_data_size row.op) [ true ↦ again s'' | false ↦ execute row.op s'' o w ]

-- From the label again on; each round fetches a byte, and an instruction has fewer than 16.
unfoldable pub again : ℕ → Bool → Decode → Run Decode
unfolding x86_inst_fetch select instpats run_row
again zero is_operand_size_16 s = λ c. fail out_of_fuel
again (suc fuel) is_operand_size_16 s = do
  (opcode, s') ← x86_inst_fetch s 1
  λ c.
      and_then (select instpats opcode)
        λ row. run_row row opcode is_operand_size_16 s' (again fuel true) c

unfoldable pub isa_exec_once : Decode → Run Decode
unfolding again
isa_exec_once s = again 16 false s
