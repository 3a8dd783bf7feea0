-- ===== src/Riscv/Table.antt =====
-- The instructions of ysyx-workbench/nemu/src/isa/riscv32/inst.c: the operand types, the operations,
-- and the table of patterns, in the order of the source.
use rv32i.Base.{List, [], ◌∷◌, codes}
use rv32i.Pattern.{Row, row}

-- TYPE_R to TYPE_N.
pub data InstType : Type 0 where
  r i s b u j n : InstType

-- The second row of sb, which masks the stored word, is sb_masked.
pub data Op : Type 0 where
  auipc lbu sb add sub and or xor sll srl sra slt : Op
  sltu mul mulh div divu rem remu addi andi ori xori slli : Op
  srli srai slti sltiu lw lh lhu jalr sw sh sb_masked lui : Op
  beq bne blt bge bltu bgeu jal ebreak inv : Op

abbrev pub InstRow : Type 0
InstRow = Row InstType Op

unfoldable pub instpats : List InstRow
instpats =
    row (codes "??????? ????? ????? ??? ????? 00101 11") InstType.u Op.auipc
    ∷ row (codes "??????? ????? ????? 100 ????? 00000 11") InstType.i Op.lbu
    ∷ row (codes "??????? ????? ????? 000 ????? 01000 11") InstType.s Op.sb
    ∷ row (codes "0000000 ????? ????? 000 ????? 01100 11") InstType.r Op.add
    ∷ row (codes "0100000 ????? ????? 000 ????? 01100 11") InstType.r Op.sub
    ∷ row (codes "0000000 ????? ????? 111 ????? 01100 11") InstType.r Op.and
    ∷ row (codes "0000000 ????? ????? 110 ????? 01100 11") InstType.r Op.or
    ∷ row (codes "0000000 ????? ????? 100 ????? 01100 11") InstType.r Op.xor
    ∷ row (codes "0000000 ????? ????? 001 ????? 01100 11") InstType.r Op.sll
    ∷ row (codes "0000000 ????? ????? 101 ????? 01100 11") InstType.r Op.srl
    ∷ row (codes "0100000 ????? ????? 101 ????? 01100 11") InstType.r Op.sra
    ∷ row (codes "0000000 ????? ????? 010 ????? 01100 11") InstType.r Op.slt
    ∷ row (codes "0000000 ????? ????? 011 ????? 01100 11") InstType.r Op.sltu
    ∷ row (codes "0000001 ????? ????? 000 ????? 01100 11") InstType.r Op.mul
    ∷ row (codes "0000001 ????? ????? 001 ????? 01100 11") InstType.r Op.mulh
    ∷ row (codes "0000001 ????? ????? 100 ????? 01100 11") InstType.r Op.div
    ∷ row (codes "0000001 ????? ????? 101 ????? 01100 11") InstType.r Op.divu
    ∷ row (codes "0000001 ????? ????? 110 ????? 01100 11") InstType.r Op.rem
    ∷ row (codes "0000001 ????? ????? 111 ????? 01100 11") InstType.r Op.remu
    ∷ row (codes "??????? ????? ????? 000 ????? 00100 11") InstType.i Op.addi
    ∷ row (codes "??????? ????? ????? 111 ????? 00100 11") InstType.i Op.andi
    ∷ row (codes "??????? ????? ????? 110 ????? 00100 11") InstType.i Op.ori
    ∷ row (codes "??????? ????? ????? 100 ????? 00100 11") InstType.i Op.xori
    ∷ row (codes "0000000 ????? ????? 001 ????? 00100 11") InstType.i Op.slli
    ∷ row (codes "0000000 ????? ????? 101 ????? 00100 11") InstType.i Op.srli
    ∷ row (codes "0100000 ????? ????? 101 ????? 00100 11") InstType.i Op.srai
    ∷ row (codes "??????? ????? ????? 010 ????? 00100 11") InstType.i Op.slti
    ∷ row (codes "??????? ????? ????? 011 ????? 00100 11") InstType.i Op.sltiu
    ∷ row (codes "??????? ????? ????? 010 ????? 00000 11") InstType.i Op.lw
    ∷ row (codes "??????? ????? ????? 001 ????? 00000 11") InstType.i Op.lh
    ∷ row (codes "??????? ????? ????? 101 ????? 00000 11") InstType.i Op.lhu
    ∷ row (codes "??????? ????? ????? 000 ????? 11001 11") InstType.i Op.jalr
    ∷ row (codes "??????? ????? ????? 010 ????? 01000 11") InstType.s Op.sw
    ∷ row (codes "??????? ????? ????? 001 ????? 01000 11") InstType.s Op.sh
    ∷ row (codes "??????? ????? ????? 000 ????? 01000 11") InstType.s Op.sb_masked
    ∷ row (codes "??????? ????? ????? ??? ????? 01101 11") InstType.u Op.lui
    ∷ row (codes "??????? ????? ????? 000 ????? 11000 11") InstType.b Op.beq
    ∷ row (codes "??????? ????? ????? 001 ????? 11000 11") InstType.b Op.bne
    ∷ row (codes "??????? ????? ????? 100 ????? 11000 11") InstType.b Op.blt
    ∷ row (codes "??????? ????? ????? 101 ????? 11000 11") InstType.b Op.bge
    ∷ row (codes "??????? ????? ????? 110 ????? 11000 11") InstType.b Op.bltu
    ∷ row (codes "??????? ????? ????? 111 ????? 11000 11") InstType.b Op.bgeu
    ∷ row (codes "??????? ????? ????? ??? ????? 11011 11") InstType.j Op.jal
    ∷ row (codes "0000000 00001 00000 000 00000 11100 11") InstType.n Op.ebreak
    ∷ row (codes "??????? ????? ????? ??? ????? ????? ??") InstType.n Op.inv
    ∷ []
