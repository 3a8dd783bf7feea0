-- ===== src/Tests/Difftest.antt =====
-- Four instructions to skip, with a reference that only counts its pc.
use rv32i.Base.{ℕ, ◌+◌, false, List, [], ◌∷◌}
use rv32i.Machine.{Machine}
use rv32i.Difftest.{CpuState, Reference, Dut}
use rv32i.Tests.Riscv.{addi_machine}

abbrev counter : Reference CpuState
counter = record {
  exec = λ c. record c { pc = c.pc + 4 };
  regcpy_to_dut = λ c. c;
  regcpy_to_ref = λ c d. c;
}

abbrev ahead : Dut CpuState
ahead = record {
  machine = addi_machine;
  ref = record { gpr = λ i. 0; pc = 0x8000000c };
  is_skip_ref = false;
  skip_dut_nr_inst = 4;
}

-- The machine behind an instruction that leads to `pc`.
abbrev arrived : ℕ → Machine
arrived pc = record addi_machine { pc = pc }

abbrev two_steps : List (ℕ × ℕ × Machine)
two_steps =
    (0x80000000, 0x80000004, arrived 0x80000004) ∷ (0x80000004, 0x80000008, arrived 0x80000008) ∷ []
