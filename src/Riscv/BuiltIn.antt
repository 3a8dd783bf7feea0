-- ===== src/Riscv/BuiltIn.antt =====
-- The built-in image of the riscv32 guest: its run, instruction by instruction.
use rv32i.Base.{ℕ, suc, ◌+◌, ◌≡◌, refl, ok}
use rv32i.Machine.{Machine, running, end, update, set_nemu_state}
use rv32i.Memory.{load_bytes, store_bytes, mbase}
use rv32i.Riscv.Init.{img, copy_words, restart, init_isa}
use rv32i.Riscv.Exec.{isa_exec_once, write_back, load, branch}
use rv32i.Word.{shl32}
use rv32i.Cpu.{exec_once, with_state}
use rv32i.Cpu.Loop.{Steps, last, next}

-- The machine at an instruction of the image.
abbrev at : ℕ → (ℕ → ℕ) → Machine → Machine
at pc g m = record m { pc = pc; gpr = g; pmem = copy_words img 0 m.pmem }

-- A register and then $zero are written.
abbrev written : (ℕ → ℕ) → ℕ → ℕ → ℕ → ℕ
written g rd v = update (update g rd v) 0 0

-- The registers behind the instructions, the first write of each first.
abbrev regs₀ : (ℕ → ℕ) → ℕ → ℕ
regs₀ g = update g 0 0

abbrev regs₁ : (ℕ → ℕ) → ℕ → ℕ
regs₁ g = written (regs₀ g) 12 (1)

abbrev regs₂ : (ℕ → ℕ) → ℕ → ℕ
regs₂ g = written (regs₁ g) 13 (31)

abbrev regs₃ : (ℕ → ℕ) → ℕ → ℕ
regs₃ g = written (regs₂ g) 14 (mbase)

abbrev regs₄ : (ℕ → ℕ) → ℕ → ℕ
regs₄ g = written (regs₃ g) 15 (0x00100613)

abbrev regs₅ : (ℕ → ℕ) → ℕ → ℕ
regs₅ g = written (regs₄ g) 13 (1)

abbrev regs₆ : (ℕ → ℕ) → ℕ → ℕ
regs₆ g = update (regs₅ g) 0 0

abbrev regs₇ : (ℕ → ℕ) → ℕ → ℕ
regs₇ g = written (regs₆ g) 1 (mbase + 32)

abbrev regs₈ : (ℕ → ℕ) → ℕ → ℕ
regs₈ g = written (regs₇ g) 0 (mbase + 28)

module _ (g : ℕ → ℕ) (m : Machine) where
  step₁ : exec_once mbase (at mbase (regs₀ g) m) ≡ ok (at (mbase + 4) (regs₁ g) m)
  unfolding exec_once isa_exec_once copy_words img load_bytes store_bytes write_back load branch
      shl32 set_nemu_state
  step₁ = refl

  step₂ : exec_once (mbase + 4) (at (mbase + 4) (regs₁ g) m) ≡ ok (at (mbase + 8) (regs₂ g) m)
  unfolding exec_once isa_exec_once copy_words img load_bytes store_bytes write_back load branch
      shl32 set_nemu_state
  step₂ = refl

  step₃ : exec_once (mbase + 8) (at (mbase + 8) (regs₂ g) m) ≡ ok (at (mbase + 12) (regs₃ g) m)
  unfolding exec_once isa_exec_once copy_words img load_bytes store_bytes write_back load branch
      shl32 set_nemu_state
  step₃ = refl

  step₄ : exec_once (mbase + 12) (at (mbase + 12) (regs₃ g) m) ≡ ok (at (mbase + 16) (regs₄ g) m)
  unfolding exec_once isa_exec_once copy_words img load_bytes store_bytes write_back load branch
      shl32 set_nemu_state
  step₄ = refl

  step₅ : exec_once (mbase + 16) (at (mbase + 16) (regs₄ g) m) ≡ ok (at (mbase + 20) (regs₅ g) m)
  unfolding exec_once isa_exec_once copy_words img load_bytes store_bytes write_back load branch
      shl32 set_nemu_state
  step₅ = refl

  step₆ : exec_once (mbase + 20) (at (mbase + 20) (regs₅ g) m) ≡ ok (at (mbase + 28) (regs₆ g) m)
  unfolding exec_once isa_exec_once copy_words img load_bytes store_bytes write_back load branch
      shl32 set_nemu_state
  step₆ = refl

  step₇ : exec_once (mbase + 28) (at (mbase + 28) (regs₆ g) m) ≡ ok (at (mbase + 24) (regs₇ g) m)
  unfolding exec_once isa_exec_once copy_words img load_bytes store_bytes write_back load branch
      shl32 set_nemu_state
  step₇ = refl

  step₈ : exec_once (mbase + 24) (at (mbase + 24) (regs₇ g) m) ≡ ok (at (mbase + 32) (regs₈ g) m)
  unfolding exec_once isa_exec_once copy_words img load_bytes store_bytes write_back load branch
      shl32 set_nemu_state
  step₈ = refl

  -- The machine behind ebreak.
  abbrev pub trapped : Machine
  trapped = record (at (mbase + 36) (update (regs₈ g) 0 0) m) {
    nemu_state = record { state = end; halt_pc = mbase + 32; halt_ret = g 10 };
  }

  step₉ : exec_once (mbase + 32) (at (mbase + 32) (regs₈ g) m) ≡ ok trapped
  unfolding exec_once isa_exec_once copy_words img load_bytes store_bytes write_back load branch
      shl32 set_nemu_state
  step₉ = refl

-- The run of the image, from whatever registers and memory behind init_isa.
pub image-Steps :
    (n : ℕ) (m : Machine)
    → Steps
        (suc (suc (suc (suc (suc (suc (suc (suc (suc n)))))))))
        9
        (with_state running (init_isa m))
        (trapped m.gpr (with_state running m))
unfolding with_state init_isa restart
image-Steps n m =
    let r = with_state running m in
    next (step₁ m.gpr r) refl (
      next (step₂ m.gpr r) refl (
        next (step₃ m.gpr r) refl (
          next (step₄ m.gpr r) refl (
            next (step₅ m.gpr r) refl (
              next (step₆ m.gpr r) refl (
                next (step₇ m.gpr r) refl
                  (next (step₈ m.gpr r) refl (last (step₉ m.gpr r) refl))))))))
