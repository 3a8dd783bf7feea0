-- ===== src/Riscv/OpcodeMap.antt =====
-- The opcode map of the RISC-V manual for the instructions that the emulator has, and the table
-- of patterns against it.
use rv32i.Base.{
  ℕ, ◌≡◌, refl, arith, true, false, ◌==◌, ◌&&◌, if◌then◌else◌, ap, ◌∙◌, subst, sym, Option, none,
  some, ok, Bool-cases, inl, inr, ==_iff,
}
use rv32i.Riscv.Table.{Op, InstType, InstRow, instpats}
use rv32i.Pattern.{select}
use rv32i.Pattern.Parts.{is_any, value, part}
use rv32i.Riscv.Fields.{Fields, fields_of}
use rv32i.Riscv.Select.{row_test, choose, select-instpats}

-- A row of the map: the operation, and the operand type of its format.
abbrev pub Entry : Type 0
Entry = Op × InstType

abbrev invalid : Entry
invalid = (Op.inv, InstType.n)

-- OP: register with register.
op_map : (funct3 funct7 : ℕ) → Op
op_map funct3 funct7 =
    if (funct7 == 0 && funct3 == 0)
    then Op.add
    else if (funct7 == 32 && funct3 == 0)
    then Op.sub
    else if (funct7 == 0 && funct3 == 1)
    then Op.sll
    else if (funct7 == 0 && funct3 == 2)
    then Op.slt
    else if (funct7 == 0 && funct3 == 3)
    then Op.sltu
    else if (funct7 == 0 && funct3 == 4)
    then Op.xor
    else if (funct7 == 0 && funct3 == 5)
    then Op.srl
    else if (funct7 == 32 && funct3 == 5)
    then Op.sra
    else if (funct7 == 0 && funct3 == 6)
    then Op.or
    else if (funct7 == 0 && funct3 == 7)
    then Op.and
    else if (funct7 == 1 && funct3 == 0)
    then Op.mul
    else if (funct7 == 1 && funct3 == 1)
    then Op.mulh
    else if (funct7 == 1 && funct3 == 4)
    then Op.div
    else if (funct7 == 1 && funct3 == 5)
    then Op.divu
    else if (funct7 == 1 && funct3 == 6)
    then Op.rem
    else if (funct7 == 1 && funct3 == 7)
    then Op.remu
    else Op.inv

-- OP-IMM: register with immediate.
op_imm_map : (funct3 funct7 : ℕ) → Op
op_imm_map funct3 funct7 =
    if funct3 == 0
    then Op.addi
    else if funct3 == 2
    then Op.slti
    else if funct3 == 3
    then Op.sltiu
    else if funct3 == 4
    then Op.xori
    else if funct3 == 6
    then Op.ori
    else if funct3 == 7
    then Op.andi
    else if (funct7 == 0 && funct3 == 1)
    then Op.slli
    else if (funct7 == 0 && funct3 == 5)
    then Op.srli
    else if (funct7 == 32 && funct3 == 5)
    then Op.srai
    else Op.inv

load_map : (funct3 : ℕ) → Op
load_map funct3 =
    if funct3 == 1
    then Op.lh
    else if funct3 == 2
    then Op.lw
    else if funct3 == 4
    then Op.lbu
    else if funct3 == 5
    then Op.lhu
    else Op.inv

store_map : (funct3 : ℕ) → Op
store_map funct3 =
    if funct3 == 0
    then Op.sb
    else if funct3 == 1
    then Op.sh
    else if funct3 == 2
    then Op.sw
    else Op.inv

branch_map : (funct3 : ℕ) → Op
branch_map funct3 =
    if funct3 == 0
    then Op.beq
    else if funct3 == 1
    then Op.bne
    else if funct3 == 4
    then Op.blt
    else if funct3 == 5
    then Op.bge
    else if funct3 == 6
    then Op.bltu
    else if funct3 == 7
    then Op.bgeu
    else Op.inv

-- An invalid entry has no operands.
abbrev typed : InstType → Op → Entry
typed t Op.inv = invalid
typed t op = (op, t)

-- The major opcodes.
unfoldable pub opcode_map : Fields → Entry
unfolding op_map op_imm_map load_map store_map branch_map
opcode_map f =
    if f.opcode == 0x33
    then typed InstType.r (op_map f.funct3 f.funct7)
    else if f.opcode == 0x13
    then typed InstType.i (op_imm_map f.funct3 f.funct7)
    else if f.opcode == 0x03
    then typed InstType.i (load_map f.funct3)
    else if f.opcode == 0x23
    then typed InstType.s (store_map f.funct3)
    else if f.opcode == 0x63
    then typed InstType.b (branch_map f.funct3)
    else if f.opcode == 0x67
    then (if f.funct3 == 0 then (Op.jalr, InstType.i) else invalid)
    else if f.opcode == 0x6f
    then (Op.jal, InstType.j)
    else if f.opcode == 0x37
    then (Op.lui, InstType.u)
    else if f.opcode == 0x17
    then (Op.auipc, InstType.u)
    else if f.opcode == 0x73
    then (if f.rd == 0 && (f.funct3 == 0 && (f.rs == 0x20 && f.funct7 == 0))
        then (Op.ebreak, InstType.n)
        else invalid)
    else invalid

-- What a selected row runs.
abbrev pub entry_of : Option InstRow → Option Entry
entry_of none = none
entry_of (some row) = some (row.op, row.operands)

abbrev with_opcode : ℕ → Fields → Fields
with_opcode o f = record f { opcode = o }

-- The entry that the table has for the fields.
chosen : Fields → Option Entry
unfolding choose row_test part is_any value instpats
chosen f = entry_of (choose instpats f)

module _ (f : Fields) where
  chosen-op : chosen (with_opcode 0x33 f) ≡ some (typed InstType.r (op_map f.funct3 f.funct7))
  unfolding chosen op_map
  chosen-op = ground arith

  chosen-op_imm :
      chosen (with_opcode 0x13 f) ≡ some (typed InstType.i (op_imm_map f.funct3 f.funct7))
  unfolding chosen op_imm_map
  chosen-op_imm = ground arith

  chosen-load : chosen (with_opcode 0x03 f) ≡ some (typed InstType.i (load_map f.funct3))
  unfolding chosen load_map
  chosen-load = ground arith

  chosen-store : chosen (with_opcode 0x23 f) ≡ some (typed InstType.s (store_map f.funct3))
  unfolding chosen store_map
  chosen-store = ground arith

  chosen-branch : chosen (with_opcode 0x63 f) ≡ some (typed InstType.b (branch_map f.funct3))
  unfolding chosen branch_map
  chosen-branch = ground arith

  -- The opcodes with one entry, and those with none.
  chosen-other :
      (f.opcode == 0x33) ≡ false
      → (f.opcode == 0x13) ≡ false
      → (f.opcode == 0x03) ≡ false
      → (f.opcode == 0x23) ≡ false
      → (f.opcode == 0x63) ≡ false
      → chosen f ≡ some (opcode_map f)
  unfolding chosen opcode_map
  chosen-other a b c d e = ground arith

-- Every field with a known opcode has the table's and the map's entry for that opcode.
at_opcode :
    (f : Fields) (o : ℕ)
    → (f.opcode == o) ≡ true
    → chosen (with_opcode o f) ≡ some (opcode_map (with_opcode o f))
    → chosen f ≡ some (opcode_map f)
at_opcode f o e h =
    subst (λ g. chosen g ≡ some (opcode_map g))
      (λ i. with_opcode (sym ((==_iff f.opcode o).0 e) i) f) h

chosen-opcode_map : (f : Fields) → chosen f ≡ some (opcode_map f)
unfolding opcode_map
chosen-opcode_map f = elim (Bool-cases (f.opcode == 0x33)) [
  | inl e ↦ at_opcode f 0x33 e (chosen-op f)
  | inr a ↦ elim (Bool-cases (f.opcode == 0x13)) [
    | inl e ↦ at_opcode f 0x13 e (chosen-op_imm f)
    | inr b ↦ elim (Bool-cases (f.opcode == 0x03)) [
      | inl e ↦ at_opcode f 0x03 e (chosen-load f)
      | inr c ↦ elim (Bool-cases (f.opcode == 0x23)) [
        | inl e ↦ at_opcode f 0x23 e (chosen-store f)
        | inr d ↦ elim (Bool-cases (f.opcode == 0x63)) [
          | inl e ↦ at_opcode f 0x63 e (chosen-branch f)
          | inr e ↦ chosen-other f a b c d e
        ]
      ]
    ]
  ]
]

entry_of-some :
    (o : Option InstRow) (e : Entry)
    → entry_of o ≡ some e
    → (row : InstRow) × (o ≡ some row) × ((row.op, row.operands) ≡ e)
entry_of-some none e h = cc
entry_of-some (some row) e h = (row, refl, cc)

-- For every instruction word the table of patterns selects a row, and its operation and operand
-- type are those that the opcode map gives for the fields of the word; a word that the map does
-- not have selects the row `inv`.
pub select-opcode_map :
    (x : ℕ)
    → (row : InstRow) × (select instpats x ≡ ok (some row))
      × ((row.op, row.operands) ≡ opcode_map (fields_of x))
select-opcode_map x =
    let (row, e, same) =
      entry_of-some (choose instpats (fields_of x)) (opcode_map (fields_of x))
        (unfold chosen in chosen-opcode_map (fields_of x)) in
    (row, select-instpats x ∙ ap ok e, same)
