-- ===== src/AbstractMachine.antt =====
-- The abstract machine of the guest programs on NEMU, from ysyx-workbench/abstract-machine/am: the bus
-- accesses of src/riscv/riscv.h, putch and halt of src/platform/nemu/trm.c, the addresses of
-- include/nemu.h there, and putstr and panic of klib/include/klib-macros.h. A store of the guest to a
-- device is a write on the emulator's bus.
pub mod Ioe
pub mod Panic
pub mod Serial
pub mod Table
use rv32i.Base.{ℕ, ◌+◌, ◌%◌, ◌==◌, if◌then◌else◌, List, [], ◌∷◌, ◌++◌, codes, Outcome, ok, and_then}
use rv32i.Word.{u32}
use rv32i.Machine.{Machine, RunState, end, gpr_read, gpr_write, set_nemu_state}
use rv32i.Device.{Devices}
use rv32i.Device.Access.{bus_write}

-- Not on x86, where the devices have ports.
abbrev pub device_base : ℕ
device_base = 0xa0000000

abbrev pub serial_port : ℕ
serial_port = device_base + 0x3f8

abbrev pub vgactl_addr : ℕ
vgactl_addr = device_base + 0x100

abbrev pub Guest : Type 0
Guest = Machine × Devices

-- The place of the panic: " @ " __FILE__ ":" TOSTRING(__LINE__) "  \n".
abbrev pub panic_place : List ℕ → List ℕ → List ℕ
panic_place file line = codes " @ " ++ (file ++ (codes ":" ++ (line ++ (codes "  " ++ (10 ∷ [])))))

-- The host's clock, which the devices read.
module _ (clock : ℕ → ℕ) where
  unfoldable pub outb : ℕ → ℕ → Guest → Outcome Guest
  unfolding bus_write
  outb addr v (m, d) = bus_write clock addr 1 (v % 256) m d

  unfoldable pub outl : ℕ → ℕ → Guest → Outcome Guest
  unfolding bus_write
  outl addr v (m, d) = bus_write clock addr 4 (v % u32) m d

  unfoldable pub putch : ℕ → Guest → Outcome Guest
  unfolding outb
  putch ch g = outb serial_port ch g

  -- The loop stops at the string's terminator, which the list may leave out.
  unfoldable pub putstr : List ℕ → Guest → Outcome Guest
  unfolding putch
  putstr [] g = ok g
  putstr (c ∷ s) g = if c == 0 then ok g else and_then (putch c g) λ g'. putstr s g'

  -- The address of the trap instruction in halt.
  module _ (trap_pc : ℕ) where
    -- nemu_trap on riscv32: the code goes to a0, and ebreak ends the run with it. The loop behind it
    -- is not reached.
    unfoldable pub halt : ℕ → Guest → Outcome Guest
    unfolding gpr_read gpr_write set_nemu_state
    halt code (m, d) = and_then (gpr_write 10 (code % u32) m) λ (_, m₁).
        and_then (gpr_read 10 m₁)
          λ (ret, m₂). and_then (set_nemu_state RunState.end trap_pc ret m₂) λ (_, m₃). ok (m₃, d)

    unfoldable pub panic : List ℕ → List ℕ → Guest → Outcome Guest
    unfolding putstr halt
    panic s place g =
        and_then (putstr (codes "AM Panic: ") g)
          λ g₁. and_then (putstr s g₁) λ g₂. and_then (putstr place g₂) λ g₃. halt 1 g₃

    -- `main` of the guest program, called with the arguments built into the image, returns its int.
    unfoldable pub trm_init :
        (List ℕ → Guest → Outcome (ℕ × Guest)) → List ℕ → Guest → Outcome Guest
    unfolding halt
    trm_init main mainargs g = and_then (main mainargs g) λ (ret, g'). halt ret g'
