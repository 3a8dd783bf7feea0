-- ===== src/Difftest.antt =====
-- Differential testing: ysyx-workbench/nemu/src/cpu/difftest/dut.c, with isa_difftest_checkregs of
-- src/isa/riscv32/difftest/dut.c. The reference simulator is a parameter: a state, one instruction of
-- it, its registers, and their replacement.
pub mod CatchUp
use rv32i.Base.{
  ℕ, zero, suc, ◌+◌, ◌-◌, Bool, true, false, ◌==◌, ltb, if◌then◌else◌, List, [], ◌∷◌, Outcome, ok,
  fail, assertion, and_then,
}
use rv32i.Machine.{Machine, abort}

-- CPU_state.
pub record CpuState : Type 0 where
  pub gpr : ℕ → ℕ
  pub pc : ℕ

pub record Reference (S : Type 0) : Type 0 where
  pub exec : S → S
  pub regcpy_to_dut : S → CpuState
  pub regcpy_to_ref : CpuState → S → S

-- cpu and nemu_state, the reference's state, and the statics of dut.c. skip_dut_nr_inst and the
-- arguments of difftest_skip_dut are natural numbers here, and int in the source.
pub record Dut (S : Type 0) : Type 0 where
  pub machine : Machine
  pub ref : S
  pub is_skip_ref : Bool
  pub skip_dut_nr_inst : ℕ

-- The function is still to be written in the source: it says no to everything.
unfoldable pub isa_difftest_checkregs : CpuState → ℕ → Machine → Bool
isa_difftest_checkregs ref_r pc m = false

unfoldable pub checkregs : CpuState → ℕ → Machine → Machine
unfolding isa_difftest_checkregs
checkregs ref_r pc m =
    if isa_difftest_checkregs ref_r pc m
    then m
    else record m { nemu_state = record m.nemu_state { state = abort; halt_pc = pc } }

module _ {S : Type 0} (r : Reference S) where
  unfoldable pub difftest_skip_ref : Dut S → Dut S
  difftest_skip_ref d = record d { is_skip_ref = true; skip_dut_nr_inst = 0 }

  -- The loop of difftest_skip_dut.
  unfoldable pub exec_times : ℕ → S → S
  exec_times zero s = s
  exec_times (suc n) s = exec_times n (r.exec s)

  unfoldable pub difftest_skip_dut : ℕ → ℕ → Dut S → Dut S
  unfolding exec_times
  difftest_skip_dut nr_ref nr_dut d = record d {
    ref = exec_times nr_ref d.ref;
    skip_dut_nr_inst = d.skip_dut_nr_inst + nr_dut;
  }

  -- Where instructions are skipped, up to the one at which the reference already is.
  unfoldable pub step_behind : ℕ → Dut S → Outcome (Dut S)
  unfolding checkregs
  step_behind npc d =
      let ref_r = r.regcpy_to_dut d.ref in
      if ref_r.pc == npc
      then ok (record d { skip_dut_nr_inst = 0; machine = checkregs ref_r npc d.machine })
      else (if d.skip_dut_nr_inst - 1 == 0
          then fail assertion
          else ok (record d { skip_dut_nr_inst = d.skip_dut_nr_inst - 1 }))

  unfoldable pub difftest_step : ℕ → ℕ → Dut S → Outcome (Dut S)
  unfolding step_behind checkregs
  difftest_step pc npc d =
      if ltb 0 d.skip_dut_nr_inst
      then step_behind npc d
      else (if d.is_skip_ref
          then ok (record d {
            ref = r.regcpy_to_ref (record { gpr = d.machine.gpr; pc = d.machine.pc }) d.ref;
            is_skip_ref = false;
          })
          else (let ref = r.exec d.ref in
              ok (record d { ref = ref; machine = checkregs (r.regcpy_to_dut ref) pc d.machine })))

  -- A run of instructions: the pc and the next one of each, and the machine behind it, on
  -- which trace_and_difftest of cpu-exec.c calls difftest_step.
  unfoldable pub difftest_steps : List (ℕ × ℕ × Machine) → Dut S → Outcome (Dut S)
  unfolding difftest_step
  difftest_steps [] d = ok d
  difftest_steps ((pc, npc, m) ∷ ps) d =
      and_then (difftest_step pc npc (record d { machine = m })) λ d'. difftest_steps ps d'
