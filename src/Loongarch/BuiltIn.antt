-- ===== src/Loongarch/BuiltIn.antt =====
-- The run of the built-in image of ysyx-workbench/nemu/src/isa/loongarch32r/init.c.
use rv32i.Base.{ℕ, suc, ◌≡◌, refl, ok}
use rv32i.Word.{add32, sext, shl32}
use rv32i.Machine.{Machine, running, end, gpr_read, gpr_write, set_nemu_state}
use rv32i.Memory.{load_bytes, store_bytes}
use rv32i.Pattern.{select}
use rv32i.Riscv.Init.{copy_words, restart}
use rv32i.Riscv.Exec.{write_back, load, store}
use rv32i.Guest
use rv32i.Cpu.{with_state}
use rv32i.Loongarch.Exec.{img, init_isa, isa_exec_once, decode_operand, execute, instpats}

-- From whatever registers and memory, the built-in image runs to its break in 4 instructions, and
-- leaves the state NEMU_END with the return code 0 that it has loaded into $a0.
loongarch_image-good_trap :
    (n : ℕ) (m : Machine)
    → (m' : Machine) × (Guest.run isa_exec_once
          (suc (suc (suc (suc n))))
          (with_state running (init_isa m))
        ≡ ok m')
      × (m'.nemu_state ≡ record { state = end; halt_pc = 0x8000000c; halt_ret = 0 })
unfolding Guest.run Guest.init_isa Guest.isa_exec_once with_state copy_words restart load_bytes
    store_bytes img select execute decode_operand write_back load store set_nemu_state add32 sext
    shl32 gpr_read gpr_write instpats
loongarch_image-good_trap n m = (_, refl, refl)
