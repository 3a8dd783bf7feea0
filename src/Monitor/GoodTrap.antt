-- ===== src/Monitor/GoodTrap.antt =====
-- With no image file, the emulator runs its built-in image to the good trap.
use rv32i.Base.{
  ℕ, ◌-◌, ◌≡◌, refl, arith, Bool, true, false, List, [], Option, none, some, ap, ◌∙◌, Outcome, ok,
  and_then, ltb,
}
use rv32i.Word.{u64}
use rv32i.Machine.{Machine, running, end, is_exit_status_bad}
use rv32i.Watch.{init_wp_pool}
use rv32i.Riscv.Init.{init_isa, restart}
use rv32i.Riscv.BuiltIn.{trapped, image-Steps}
use rv32i.Cpu.{System, with_state, settle, cpu_exec}
use rv32i.Cpu.Loop.{after, state_of, cpu_exec-Steps}
use rv32i.Debugger.{Message}
use rv32i.Debugger.Commands.{goes_on, continue_run, sdb_mainloop}
use rv32i.Monitor.{
  Options, World, defaults, statics, parse_args, init_log, init_mem, load_img, init_sdb,
  init_system, init_monitor, nemu_main,
}

module _ (world : World) where
  -- The system that init_monitor leaves.
  abbrev started : System
  started = init_sdb world (record statics { machine = init_isa (init_mem world statics.machine) })

  -- The machine behind the image's ebreak.
  abbrev final : Machine
  final = let m = init_mem world statics.machine in trapped m.gpr (with_state running m)

  abbrev ended : System
  ended = record (after started 9 (with_state (settle (state_of final)) final)) {
    g_print_step = ltb (u64 - 1) 10;
  }

  run_image : (fuel : ℕ) → cpu_exec fuel world.host.libc (u64 - 1) started ≡ ok ended
  unfolding init_sdb init_wp_pool init_isa restart init_mem
  run_image fuel =
      cpu_exec-Steps fuel world.host.libc started refl (omega arith) refl
        (image-Steps (u64 - 10) (init_mem world statics.machine))

  batch :
      (fuel : ℕ) (lines : List (List ℕ))
      → sdb_mainloop fuel world.host true lines started ≡ ok (ended, [])
  unfolding sdb_mainloop continue_run
  batch fuel lines =
      ap (λ o. and_then (and_then o (goes_on [])) λ (_, y', out). ok (y', out)) (run_image fuel)

  system_of_builtin :
      (o : Options)
      → o.img_file ≡ none
      → init_log world o.log_file ≡ ok tt
      → init_system world o statics ≡ ok started
  unfolding init_system load_img
  system_of_builtin o no_image logs = rw (init_system, logs, no_image, load_img) refl

  init_monitor_of_builtin :
      (args : List (ℕ × List ℕ)) (o : Options)
      → parse_args world args defaults ≡ some o
      → o.img_file ≡ none
      → init_log world o.log_file ≡ ok tt
      → init_monitor world args statics ≡ ok (some (o, started))
  unfolding init_monitor
  init_monitor_of_builtin args o parsed no_image logs =
      (λ i. elim (parsed i) [
        | none ↦ ok none
        | some o ↦ and_then (init_system world o statics) λ y'. ok (some (o, y'))
      ])
      ∙ ap (λ q. and_then q λ y'. ok (some (o, y'))) (system_of_builtin o no_image logs)

  run_main :
      (fuel : ℕ) (lines : List (List ℕ))
      → Option (Options × System)
      → Outcome (Option (Bool × System × List Message))
  run_main fuel lines none = ok none
  run_main fuel lines (some (o, y)) =
      and_then (sdb_mainloop fuel world.host o.is_batch_mode lines y)
        λ (y', out). ok (some (is_exit_status_bad y'.machine.nemu_state, y', out))

  main_of_builtin :
      (fuel : ℕ) (lines : List (List ℕ)) (o : Options)
      → o.is_batch_mode ≡ true
      → run_main fuel lines (some (o, started)) ≡ ok (some (false, ended, []))
  unfolding run_main is_exit_status_bad with_state init_mem
  main_of_builtin fuel lines o batched =
      ap
        (λ q. and_then q λ (y', out). ok (some (is_exit_status_bad y'.machine.nemu_state, y', out)))
        (ap (λ b. sdb_mainloop fuel world.host b lines started) batched ∙ batch fuel lines)

  -- In batch mode and without an image, and with a log file that can be opened if there is one, the
  -- program ends, whatever rand and the host's library return and however little fuel the evaluator
  -- of expressions has: the built-in image takes 9 instructions to its ebreak at 0x80000020 with $a0
  -- at 0, and the exit status is good.
  pub nemu_main-good_trap :
      (fuel : ℕ) (args : List (ℕ × List ℕ)) (lines : List (List ℕ)) (o : Options)
      → parse_args world args defaults ≡ some o
      → o.is_batch_mode ≡ true
      → o.img_file ≡ none
      → init_log world o.log_file ≡ ok tt
      → (y : System) × (nemu_main world fuel args lines ≡ ok (some (false, y, [])))
        × (y.machine.nemu_state ≡ record { state = end; halt_pc = 0x80000020; halt_ret = 0 })
        × (y.g_nr_guest_inst ≡ 9)
  unfolding nemu_main run_main
  nemu_main-good_trap fuel args lines o parsed batched no_image logs = (
    ended,
    ap (λ r. and_then r (run_main fuel lines)) (init_monitor_of_builtin args o parsed no_image logs)
        ∙ main_of_builtin fuel lines o batched,
    refl,
    refl,
  )
