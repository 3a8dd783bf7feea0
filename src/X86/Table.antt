-- ===== src/X86/Table.antt =====
-- The tables of isa_exec_once and _2byte_esc in ysyx-workbench/nemu/src/isa/x86/inst.c.
use rv32i.Base.{ℕ, List, [], ◌∷◌, codes}
use rv32i.Pattern.{Row, row}

-- TYPE_r to TYPE_N.
pub data InstType : Type 0 where
  r i si j e i2r i2a g2e e2g i2e ib2e cl2e one_e si2e eb2g ew2g o2a a2o i_e2g si_e2g ib_g2e cl_g2e
        n :
      InstType

-- The bodies of the rows.
pub data Op : Type 0 where
  -- 2byte_esc, data_size and gp1
  two_byte_esc data_size gp1 : Op
  -- mov: RMw(src1), Rw(rd, w, RMr(rs, w)), between R_EAX and memory, Rw(rd, w, imm), RMw(imm)
  mov_to_rm mov_from_rm load_a store_a mov_imm mov_imm_to_rm : Op
  nemu_trap inv : Op

-- The type of the operands, and the width, where 0 is the operand size.
abbrev pub InstRow : Type 0
InstRow = Row (InstType × ℕ) Op

unfoldable pub instpats : List InstRow
instpats =
    row (codes "0000 1111") (InstType.n, 0) Op.two_byte_esc
    ∷ row (codes "0110 0110") (InstType.n, 0) Op.data_size
    ∷ row (codes "1000 0000") (InstType.i2e, 1) Op.gp1
    ∷ row (codes "1000 1000") (InstType.g2e, 1) Op.mov_to_rm
    ∷ row (codes "1000 1001") (InstType.g2e, 0) Op.mov_to_rm
    ∷ row (codes "1000 1010") (InstType.e2g, 1) Op.mov_from_rm
    ∷ row (codes "1000 1011") (InstType.e2g, 0) Op.mov_from_rm
    ∷ row (codes "1010 0000") (InstType.o2a, 1) Op.load_a
    ∷ row (codes "1010 0001") (InstType.o2a, 0) Op.load_a
    ∷ row (codes "1010 0010") (InstType.a2o, 1) Op.store_a
    ∷ row (codes "1010 0011") (InstType.a2o, 0) Op.store_a
    ∷ row (codes "1011 0???") (InstType.i2r, 1) Op.mov_imm
    ∷ row (codes "1011 1???") (InstType.i2r, 0) Op.mov_imm
    ∷ row (codes "1100 0110") (InstType.i2e, 1) Op.mov_imm_to_rm
    ∷ row (codes "1100 0111") (InstType.i2e, 0) Op.mov_imm_to_rm
    ∷ row (codes "1100 1100") (InstType.n, 0) Op.nemu_trap
    ∷ row (codes "???? ????") (InstType.n, 0) Op.inv
    ∷ []

-- The table of _2byte_esc.
unfoldable pub esc_instpats : List InstRow
esc_instpats = row (codes "???? ????") (InstType.n, 0) Op.inv ∷ []
