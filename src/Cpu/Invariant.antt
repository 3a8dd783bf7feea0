-- ===== src/Cpu/Invariant.antt =====
-- What every call of cpu_exec keeps.
use rv32i.Base.{OnOk, on_ok, on_ok-eq, ℕ, ◌<◌, ◌≡◌, arith, Bool, true, false, if◌then◌else◌, ok}
use rv32i.Word.{u32, u64}
use rv32i.Machine.{Machine, RunState, stop, is_running}
use rv32i.Riscv.Exec.{isa_exec_once}
use rv32i.Riscv.Bodies.{IsMachine}
use rv32i.Riscv.Invariant.{isa_exec_once-IsMachine}
use rv32i.Watch.{Pool, check_wp}
use rv32i.Expr.Eval.{Libc, ExprState, expr}
use rv32i.Cpu.Keeps.{IsKept, IsSettled, cpu_exec-IsKept}
use rv32i.Cpu.{System, with_state, exec_once, trace_and_difftest, round, cpu_exec}

-- Registers and pc are words, $zero is 0, pmem holds bytes, and the counter is a uint64_t.
pub record IsSystem (y : System) : Type 0 where
  pub pc_lt : y.machine.pc < u32
  pub machine : IsMachine y.machine
  pub zero_reg : y.machine.gpr 0 ≡ 0
  pub counter : y.g_nr_guest_inst < u64

IsSystem-with_state :
    (st : RunState) {y : System}
    → IsSystem y
    → IsSystem (record y { machine = with_state st y.machine })
unfolding with_state
IsSystem-with_state st k = record {
  pc_lt = k.pc_lt;
  machine = record { words = k.machine.words; bytes = k.machine.bytes };
  zero_reg = k.zero_reg;
  counter = k.counter;
}

-- The machine behind one instruction.
record IsNext (m : Machine) : Type 0 where
  pc_lt : m.pc < u32
  machine : IsMachine m
  zero_reg : m.gpr 0 ≡ 0

exec_once-IsNext : (pc : ℕ) (m : Machine) → pc < u32 → IsMachine m → OnOk IsNext (exec_once pc m)
unfolding exec_once
exec_once-IsNext pc m pc_lt k =
    on_ok _ (isa_exec_once (record { pc = pc; snpc = pc; dnpc = 0; inst = 0 }) m) _ λ (s, m') e.
      let (next, k', z) = isa_exec_once-IsMachine _ m pc_lt k e in
      record { pc_lt = next; machine = record { words = k'.words; bytes = k'.bytes }; zero_reg = z }

module _ (fuel : ℕ) (libc : Libc) where
  trace_and_difftest-IsSystem :
      (y : System) → IsSystem y → OnOk IsSystem (trace_and_difftest fuel libc y)
  unfolding trace_and_difftest
  trace_and_difftest-IsSystem y k =
      on_ok _ (check_wp (λ e. expr fuel libc y.machine e) y.pool y.expr_state) _ λ r _. behind r
    where
      behind :
          (r : Bool × Pool × ExprState)
          → IsSystem (record y {
            machine = if r.0 then with_state stop y.machine else y.machine;
            pool = r.1;
            expr_state = r.2;
          })
      behind (true, pool, es) = IsSystem-with_state stop (record {
        pc_lt = k.pc_lt;
        machine = k.machine;
        zero_reg = k.zero_reg;
        counter = k.counter;
      })
      behind (false, pool, es) = record {
        pc_lt = k.pc_lt;
        machine = k.machine;
        zero_reg = k.zero_reg;
        counter = k.counter;
      }

  round-IsSystem : (y : System) → IsSystem y → OnOk IsSystem (round fuel libc y)
  unfolding round
  round-IsSystem y k = on_ok _ (exec_once y.machine.pc y.machine) _ λ m e.
      let next : IsNext m =
        on_ok-eq IsNext (exec_once-IsNext y.machine.pc y.machine k.pc_lt k.machine) e in
      trace_and_difftest-IsSystem _ (record {
        pc_lt = next.pc_lt;
        machine = next.machine;
        zero_reg = next.zero_reg;
        counter = omega arith;
      })

  pub system_kept : IsKept fuel libc IsSystem
  system_kept = record {
    of_round = round-IsSystem;
    of_state = λ st y k. IsSystem-with_state st k;
    of_print = λ b y k. record {
      pc_lt = k.pc_lt;
      machine = k.machine;
      zero_reg = k.zero_reg;
      counter = k.counter;
    };
  }

  -- Wherever cpu_exec returns, from whatever state and with whatever watchpoints, registers and pc
  -- are 32-bit words, $zero is 0, memory cells are bytes and the instruction counter is a 64-bit
  -- number if they were so before, and the state is not NEMU_RUNNING.
  pub cpu_exec-IsSystem :
      (n : ℕ) (y : System) {y' : System}
      → IsSystem y
      → cpu_exec fuel libc n y ≡ ok y'
      → IsSystem y' × (is_running y'.machine.nemu_state.state ≡ false)
  cpu_exec-IsSystem n y k e =
      on_ok-eq (IsSettled fuel libc IsSystem system_kept)
        (cpu_exec-IsKept fuel libc IsSystem system_kept n y k) e
