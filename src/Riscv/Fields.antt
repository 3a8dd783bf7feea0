-- ===== src/Riscv/Fields.antt =====
-- The fields of an instruction word: opcode, rd, funct3, rs1 with rs2, funct7.
use rv32i.Base.{ℕ, ◌/◌, ◌%◌, ◌^◌}

pub record Fields : Type 0 where
  pub opcode : ℕ
  pub rd : ℕ
  pub funct3 : ℕ
  pub rs : ℕ
  pub funct7 : ℕ

abbrev pub fields_of : ℕ → Fields
fields_of x = record {
  opcode = x % 2 ^ 7;
  rd = x / 2 ^ 7 % 2 ^ 5;
  funct3 = x / 2 ^ 7 / 2 ^ 5 % 2 ^ 3;
  rs = x / 2 ^ 7 / 2 ^ 5 / 2 ^ 3 % 2 ^ 10;
  funct7 = x / 2 ^ 7 / 2 ^ 5 / 2 ^ 3 / 2 ^ 10 % 2 ^ 7;
}
