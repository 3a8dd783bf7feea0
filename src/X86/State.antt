-- ===== src/X86/State.antt =====
-- CPU_state of ysyx-workbench/nemu/src/isa/x86/include/isa-def.h, its accessors in
-- local-include/reg.h, and memory and fetches as the guest sees them.
use rv32i.Base.{
  ℕ, ◌-◌, ◌/◌, ◌%◌, ◌^◌, ◌==◌, if◌then◌else◌, ltb, Outcome, ok, fail, assertion, out_of_bound,
  and_then,
}
use rv32i.Word.{add32, sub32, u32}
use rv32i.Machine.{NemuState, RunState, Command, update}
use rv32i.Memory.{msize, host_read, host_write, store_bytes}

-- One element of gpr: a struct, whose members do not overlap.
pub record Gpr : Type 0 where
  pub long : ℕ
  pub word : ℕ
  pub bytes : ℕ → ℕ

-- CPU_state with pmem and nemu_state; `named` has the members eax to edi, by their place.
pub record Cpu86 : Type 0 where
  pub gpr : ℕ → Gpr
  pub named : ℕ → ℕ
  pub pc : ℕ
  pub pmem : ℕ → ℕ
  pub nemu_state : NemuState

abbrev pub Run : Type 0 → Type 0
Run A = Cpu86 → Outcome (A × Cpu86)

abbrev pub pure : {A : Type 0} → A → Run A
pure a c = ok (a, c)

infixl 5 ◌>>=◌ ◌>>◌
abbrev pub ◌>>=◌ : {A B : Type 0} → Run A → (A → Run B) → Run B
◌>>=◌ r f c = and_then (r c) λ (a, c'). f a c'

abbrev pub ◌>>◌ : {A B : Type 0} → Run A → Run B → Run B
r >> k = r >>= λ _. k

-- What concerns pmem and nemu_state alone is as in the other guests.
abbrev pub shared : {A : Type 0} → Command A → Run A
shared k c =
    and_then (k (record { gpr = λ i. 0; pc = c.pc; pmem = c.pmem; nemu_state = c.nemu_state }))
      λ (a, m). ok (a, record c { pmem = m.pmem; nemu_state = m.nemu_state })

unfoldable pub check_reg_index : ℕ → Run ℕ
check_reg_index i c = if ltb i 8 then ok (i, c) else fail assertion

-- reg_l, reg_w and reg_b.
unfoldable pub reg_read : ℕ → ℕ → Run ℕ
unfolding check_reg_index
reg_read idx width = do
  i ← check_reg_index idx
  λ c.
      if width == 4
      then ok ((c.gpr i).long, c)
      else if width == 1
      then ok ((c.gpr (i % 4)).bytes (i / 4), c)
      else if width == 2
      then ok ((c.gpr i).word, c)
      else fail assertion

abbrev set_gpr : ℕ → Gpr → Cpu86 → Cpu86
set_gpr i g c = record c { gpr = update c.gpr i g }

unfoldable pub reg_write : ℕ → ℕ → ℕ → Run (Unit {0})
unfolding check_reg_index
reg_write idx width v = do
  i ← check_reg_index idx
  λ c.
      if width == 4
      then ok (tt, set_gpr i (record (c.gpr i) { long = v }) c)
      else if width == 1
      then ok (
        tt,
        set_gpr (i % 4)
            (record (c.gpr (i % 4)) { bytes = update (c.gpr (i % 4)).bytes (i / 4) (v % 2 ^ 8) }) c,
      )
      else if width == 2
      then ok (tt, set_gpr i (record (c.gpr i) { word = v % 2 ^ 16 }) c)
      else fail assertion

-- paddr_read and paddr_write, and so vaddr_read, vaddr_write and vaddr_ifetch, with MBASE 0.
unfoldable pub mem_read : ℕ → ℕ → Run ℕ
unfolding host_read
mem_read addr len c =
    if ltb addr msize then shared (host_read addr len) c else fail (out_of_bound addr)

unfoldable pub mem_write : ℕ → ℕ → ℕ → Run (Unit {0})
unfolding host_write
mem_write addr len v c =
    if ltb addr msize then shared (host_write addr len v) c else fail (out_of_bound addr)

-- Decode, with the bytes of isa.inst.
pub record Decode : Type 0 where
  pub pc : ℕ
  pub snpc : ℕ
  pub dnpc : ℕ
  pub inst : ℕ → ℕ

unfoldable pub x86_inst_fetch : Decode → ℕ → Run (ℕ × Decode)
unfolding mem_read store_bytes add32 sub32
x86_inst_fetch s len = do
  ret ← mem_read s.snpc len
  let snpc = add32 s.snpc len
  λ c.
      if ltb (sub32 snpc s.pc) 16
      then ok (
        (ret, record s { snpc = snpc; inst = store_bytes len s.inst (sub32 s.snpc s.pc) ret }),
        c,
      )
      else fail assertion

unfoldable pub set_nemu_state : RunState → ℕ → ℕ → Run (Unit {0})
set_nemu_state state pc halt_ret c =
    ok (tt, record c { nemu_state = record { state = state; halt_pc = pc; halt_ret = halt_ret } })

unfoldable pub invalid_inst : ℕ → Run (Unit {0})
unfolding mem_read set_nemu_state add32
invalid_inst thispc = do
  word₀ ← mem_read thispc 4
  word₁ ← mem_read (add32 thispc 4) 4
  set_nemu_state RunState.abort thispc (u32 - 1)
