-- ===== src/Tests/Riscv.antt =====
-- Instructions of the riscv32 guest at concrete machines.
use rv32i.Base.{ℕ, ◌+◌, ◌*◌, ◌^◌, ◌-◌, ◌<◌, ◌≡◌, refl, arith, ok, some}
use rv32i.Base.Int.{negsuc, ◌*ℤ◌, signed}
use rv32i.Word.{mul32, bits, u32, add32}
use rv32i.Machine.{Machine, RunState, update}
use rv32i.Memory.{load_bytes, store_bytes}
use rv32i.Pattern.{select}
use rv32i.Riscv.Table.{InstRow, instpats}
use rv32i.Riscv.Immediates.{signed_field, imm-signed_field}
use rv32i.Riscv.Product.{mulh32-mul32}
use rv32i.Riscv.Alu.{mulh32, div_s32, rem_s32, divides}
use rv32i.Riscv.Division.{IsQuotient, div_s32-rem_s32}
use rv32i.Riscv.Exec.{imm_i, imm_s, imm_b, imm_u, imm_j, Decode, execute, write_back, isa_exec_once}
use rv32i.Riscv.Fields.{fields_of}
use rv32i.Riscv.OpcodeMap.{opcode_map, select-opcode_map}
use rv32i.Riscv.Bodies.{IsMachine}
use rv32i.Riscv.Invariant.{isa_exec_once-IsMachine}

-- addi x12, x0, 1 at the reset vector.
abbrev pub addi_machine : Machine
addi_machine = record {
  gpr = λ _. 0;
  pc = 0x80000000;
  pmem = store_bytes 4 (λ _. 0) 0 0x00100613;
  nemu_state = record { state = RunState.running; halt_pc = 0; halt_ret = 0 };
}

abbrev pub at_reset : Decode
at_reset = record { pc = 0x80000000; snpc = 0x80000000; dnpc = 0; inst = 0 }

abbrev pub addi_done : Machine
addi_done = record addi_machine { gpr = update (update (λ _. 0) 12 1) 0 0 }

abbrev pub behind_addi : Decode
behind_addi = record { pc = 0x80000000; snpc = 0x80000004; dnpc = 0x80000004; inst = 0x00100613 }

pub addi_IsMachine : IsMachine addi_machine
unfolding store_bytes
addi_IsMachine = record { words = λ i. omega arith; bytes = λ a. ground arith }

pub addi_run : isa_exec_once at_reset addi_machine ≡ ok (behind_addi, addi_done)
unfolding isa_exec_once execute write_back add32 load_bytes store_bytes
addi_run = refl

isa_exec_once-IsMachine_example : (0x80000004 < u32) × IsMachine addi_done × (addi_done.gpr 0 ≡ 0)
isa_exec_once-IsMachine_example =
    isa_exec_once-IsMachine at_reset addi_machine (omega arith) addi_IsMachine addi_run

select-opcode_map_example :
    (row : InstRow) × (select instpats 0x00100613 ≡ ok (some row))
    × ((row.op, row.operands) ≡ opcode_map (fields_of 0x00100613))
select-opcode_map_example = select-opcode_map 0x00100613

-- beq x1, x2, -4: 0xfe208ee3.
imm-signed_field_example :
    let x : ℕ = 0xfe208ee3 in
    (imm_i x ≡ signed_field 12 (bits x 31 20))
    × (imm_s x ≡ signed_field 12 (bits x 31 25 * 2 ^ 5 + bits x 11 7))
    × (imm_b x
        ≡ signed_field 13 (
            bits x 31 31 * 2 ^ 12
            + bits x 7 7 * 2 ^ 11
            + bits x 30 25 * 2 ^ 5
            + bits x 11 8 * 2 ^ 1))
    × (imm_u x ≡ bits x 31 12 * 2 ^ 12)
    × (imm_j x
        ≡ signed_field 21 (
            bits x 31 31 * 2 ^ 20
            + bits x 19 12 * 2 ^ 12
            + bits x 20 20 * 2 ^ 11
            + bits x 30 21 * 2 ^ 1))
imm-signed_field_example = imm-signed_field 0xfe208ee3

branch_back : imm_b 0xfe208ee3 ≡ u32 - 4
unfolding imm_b
branch_back = refl

-- -7 / 2.
div_s32-rem_s32_example :
    (q : ℕ) × (r : ℕ) × (div_s32 (u32 - 7) 2 ≡ ok q)
    × (rem_s32 (u32 - 7) 2 ≡ ok r)
    × IsQuotient (u32 - 7) 2 q r
unfolding divides
div_s32-rem_s32_example = div_s32-rem_s32 (omega arith) (omega arith) refl

quotient_run : div_s32 (u32 - 7) 2 ≡ ok (u32 - 3)
unfolding div_s32
quotient_run = refl

-- -1 times 3.
mulh32-mul32_example :
    signed 64 (mulh32 (u32 - 1) 3 * 2 ^ 32 + mul32 (u32 - 1) 3) ≡ signed 32 (u32 - 1) *ℤ signed 32 3
mulh32-mul32_example = mulh32-mul32 (u32 - 1) 3 (omega arith) (omega arith)

product_run : mulh32 (u32 - 1) 3 ≡ u32 - 1
unfolding mulh32
product_run = refl

signed_product : signed 32 (u32 - 1) *ℤ signed 32 3 ≡ negsuc 2
unfolding signed ◌*ℤ◌
signed_product = refl
