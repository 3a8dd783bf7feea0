-- ===== src/Cpu.antt =====
-- The execution loop: ysyx-workbench/nemu/src/cpu/cpu-exec.c. The trace, the disassembly and the
-- messages are output only; get_time is left out with the statistics that it feeds.
pub mod Loop
pub mod Keeps
pub mod Invariant
use rv32i.Base.{
  ℕ, zero, suc, ◌+◌, ◌%◌, Bool, true, false, ◌==◌, if◌then◌else◌, ltb, List, Outcome, ok, fail,
  and_then,
}
use rv32i.Word.{u64}
use rv32i.Machine.{
  Machine, Command, RunState, running, stop, end, abort, quit, NemuState, is_running,
}
use rv32i.Riscv.Exec.{Decode, isa_exec_once}
use rv32i.Watch.{Pool, check_wp}
use rv32i.Expr.Eval.{Libc, ExprState, expr}

pub record System : Type 0 where
  pub machine : Machine
  pub pool : Pool
  pub expr_state : ExprState
  pub g_nr_guest_inst : ℕ
  pub g_print_step : Bool

unfoldable pub with_state : RunState → Machine → Machine
with_state st m = record m { nemu_state = record m.nemu_state { state = st } }

-- exec_once for a guest: Decode has no other value before than pc and snpc.
abbrev pub exec_once_of : (Decode → Command Decode) → ℕ → Machine → Outcome Machine
exec_once_of isa pc m =
    and_then (isa (record { pc = pc; snpc = pc; dnpc = 0; inst = 0 }) m)
      λ (s, m'). ok (record m' { pc = s.dnpc })

unfoldable pub exec_once : ℕ → Machine → Outcome Machine
exec_once pc m = exec_once_of isa_exec_once pc m

abbrev pub has_ended : RunState → Bool
has_ended end = true
has_ended abort = true
has_ended quit = true
has_ended _ = false

-- The state behind the loop: NEMU_RUNNING becomes NEMU_STOP.
abbrev pub settle : RunState → RunState
settle running = stop
settle st = st

module _ (fuel : ℕ) (libc : Libc) where
  -- trace_and_difftest: the watchpoints are checked.
  unfoldable pub trace_and_difftest : System → Outcome System
  unfolding with_state
  trace_and_difftest y =
      and_then (check_wp (λ e. expr fuel libc y.machine e) y.pool y.expr_state)
        λ (triggered, pool, es). ok (record y {
          machine = if triggered then with_state stop y.machine else y.machine;
          pool = pool;
          expr_state = es;
        })

  -- One round of execute.
  unfoldable pub round : System → Outcome System
  unfolding exec_once trace_and_difftest
  round y = and_then (exec_once y.machine.pc y.machine) λ m.
      trace_and_difftest (record y { machine = m; g_nr_guest_inst = (y.g_nr_guest_inst + 1) % u64 })

  -- The loop ends after `n` rounds, or when the state is no longer NEMU_RUNNING.
  unfoldable pub execute : ℕ → System → Outcome System
  unfolding round
  execute zero y = ok y
  execute (suc n) y =
      and_then (round y)
        λ y'. elim (is_running y'.machine.nemu_state.state) [ true ↦ execute n y' | false ↦ ok y' ]

  -- cpu_exec, with n as uint64_t: -1 stands for 2^64 - 1.
  unfoldable pub cpu_exec : ℕ → System → Outcome System
  unfolding execute with_state
  cpu_exec n y =
      let y₀ = record y { g_print_step = ltb n 10 } in
      let run : Outcome System =
        and_then (execute n (record y₀ { machine = with_state running y₀.machine })) λ y'.
          ok (record y' { machine = with_state (settle y'.machine.nemu_state.state) y'.machine }) in
      if has_ended y₀.machine.nemu_state.state then ok y₀ else run
