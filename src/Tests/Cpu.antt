-- ===== src/Tests/Cpu.antt =====
-- cpu_exec at the machine of the addi test, with no watchpoint set.
use rv32i.Base.{◌≡◌, refl, arith, false, ltb, [], none, ap, ok, and_then}
use rv32i.Machine.{Machine, running, is_running}
use rv32i.Watch.{init_wp_pool}
use rv32i.Expr.Tokens.{TokenType}
use rv32i.Expr.Eval.{Libc, ExprState}
use rv32i.Cpu.{System, with_state, exec_once, settle, cpu_exec}
use rv32i.Cpu.Loop.{state_of, Steps, done, next, after, cpu_exec-Steps}
use rv32i.Cpu.Invariant.{IsSystem, cpu_exec-IsSystem}
use rv32i.Tests.Riscv.{addi_machine, addi_done, addi_IsMachine, addi_run}

-- A library whose regexec never matches.
abbrev pub no_match : Libc
no_match = record { regexec = λ r e. none; atoi = λ s. 0; scan_hex = λ s. 0 }

abbrev no_tokens : ExprState
no_tokens = record {
  table = record { tokens = λ i. record { type = TokenType.notype; str = [] }; nr_token = 0 };
  is_bad = false;
}

abbrev pub system : System
system = record {
  machine = addi_machine;
  pool = init_wp_pool (λ i. record { no = 0; next = none; type = 0; str = []; last_value = 0 });
  expr_state = no_tokens;
  g_nr_guest_inst = 5;
  g_print_step = false;
}

abbrev addi_next : Machine
addi_next = record addi_done { pc = 0x80000004 }

addi_step : exec_once 0x80000000 addi_machine ≡ ok addi_next
unfolding exec_once
addi_step = ap (λ o. and_then o λ (s, m'). ok (record m' { pc = s.dnpc })) addi_run

one-Steps : Steps 1 1 (with_state running addi_machine) addi_next
unfolding with_state
one-Steps = next addi_step refl done

cpu_exec-Steps_example :
    cpu_exec 9 no_match 1 system
    ≡ ok (record (after system 1 (with_state (settle (state_of addi_next)) addi_next)) {
      g_print_step = ltb 1 10;
    })
unfolding init_wp_pool
cpu_exec-Steps_example = cpu_exec-Steps 9 no_match system refl (omega arith) refl one-Steps

system-IsSystem : IsSystem system
system-IsSystem = record {
  pc_lt = omega arith;
  machine = addi_IsMachine;
  zero_reg = refl;
  counter = omega arith;
}

cpu_exec-IsSystem_example :
    let y = record (after system 1 (with_state (settle (state_of addi_next)) addi_next)) {
      g_print_step = ltb 1 10;
    } in
    IsSystem y × (is_running y.machine.nemu_state.state ≡ false)
unfolding init_wp_pool
cpu_exec-IsSystem_example =
    cpu_exec-IsSystem 9 no_match 1 system system-IsSystem
      (cpu_exec-Steps 9 no_match system refl (omega arith) refl one-Steps)
