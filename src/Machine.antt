-- ===== src/Machine.antt =====
-- The state that the emulator's instructions work on: CPU_state of
-- ysyx-workbench/nemu/src/isa/riscv32/include/isa-def.h, the array pmem of src/memory/paddr.c, and
-- nemu_state of include/utils.h and src/utils/state.c; and commands over it.
pub mod Ensures
use rv32i.Base.{
  ℕ, Bool, true, false, ◌&&◌, ◌||◌, not, ◌==◌, if◌then◌else◌, ltb, Outcome, ok, fail, Fault,
  assertion, and_then,
}

pub data RunState : Type 0 where
  running stop end abort quit : RunState

pub record NemuState : Type 0 where
  pub state : RunState
  pub halt_pc : ℕ
  pub halt_ret : ℕ

-- pmem is read by offsets from its start.
pub record Machine : Type 0 where
  pub gpr : ℕ → ℕ
  pub pc : ℕ
  pub pmem : ℕ → ℕ
  pub nemu_state : NemuState

abbrev pub Command : Type 0 → Type 0
Command A = Machine → Outcome (A × Machine)

abbrev pub pure : {A : Type 0} → A → Command A
pure a m = ok (a, m)

abbrev pub raise : {A : Type 0} → Fault → Command A
raise e m = fail e

infixl 5 ◌>>=◌ ◌>>◌
abbrev pub ◌>>=◌ : {A B : Type 0} → Command A → (A → Command B) → Command B
◌>>=◌ c f m = and_then (c m) λ (a, m'). f a m'

abbrev pub ◌>>◌ : {A B : Type 0} → Command A → Command B → Command B
c >> k = c >>= λ _. k

-- A write at one index of a table.
abbrev pub update {ℓ} : {A : Type ℓ} → (ℕ → A) → ℕ → A → ℕ → A
update f i v j = if i == j then v else f j

-- check_reg_idx: the assertion of CONFIG_RT_CHECK.
unfoldable pub check_reg_idx : ℕ → Outcome ℕ
check_reg_idx i = if ltb i 32 then ok i else fail assertion

-- gpr(i), read and written.
unfoldable pub gpr_read : ℕ → Command ℕ
unfolding check_reg_idx
gpr_read i m = and_then (check_reg_idx i) λ j. ok (m.gpr j, m)

unfoldable pub gpr_write : ℕ → ℕ → Command (Unit {0})
unfolding check_reg_idx
gpr_write i v m = and_then (check_reg_idx i) λ j. ok (tt, record m { gpr = update m.gpr j v })

-- difftest_skip_ref does nothing in this configuration.
unfoldable pub set_nemu_state : RunState → ℕ → ℕ → Command (Unit {0})
set_nemu_state state pc halt_ret m =
    ok (tt, record m { nemu_state = record { state = state; halt_pc = pc; halt_ret = halt_ret } })

abbrev pub is_end : RunState → Bool
is_end end = true
is_end _ = false

abbrev pub is_quit : RunState → Bool
is_quit quit = true
is_quit _ = false

abbrev pub is_running : RunState → Bool
is_running running = true
is_running _ = false

unfoldable pub is_exit_status_bad : NemuState → Bool
is_exit_status_bad s = not ((is_end s.state && s.halt_ret == 0) || is_quit s.state)
