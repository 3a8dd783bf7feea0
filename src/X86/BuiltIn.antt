-- ===== src/X86/BuiltIn.antt =====
-- The run of the built-in image of ysyx-workbench/nemu/src/isa/x86/init.c.
use rv32i.Base.{ℕ, suc, ◌≡◌, refl, ok}
use rv32i.Word.{add32, sub32, sext, shl32}
use rv32i.Machine.{running, end}
use rv32i.Memory.{load_bytes, store_bytes, host_read, host_write, host_len}
use rv32i.Pattern.{select}
use rv32i.X86.State.{
  Cpu86, check_reg_index, reg_read, reg_write, mem_read, mem_write, x86_inst_fetch, set_nemu_state,
}
use rv32i.X86.Operand.{load_sib, displaced, load_disp, add_reg, load_addr, decode_rm}
use rv32i.X86.Exec.{decode_operand, execute, run_row, again, isa_exec_once, write_reg, rm_write}
use rv32i.X86.Table.{instpats}
use rv32i.X86.Init.{load_image, img, copy_bytes, restart, exec_once, run}

unfoldable pub started : Cpu86 → Cpu86
unfolding load_image
started c = record (load_image c) { nemu_state = record c.nemu_state { state = running } }

-- From whatever registers and memory, the built-in image runs to its int3 in 8 instructions, with
-- %eax 0 and the three values of its comments in memory; the return code is the member eax, which
-- the instructions do not touch.
pub x86_image-trap :
    (n : ℕ) (c : Cpu86)
    → (c' : Cpu86) × (run (suc (suc (suc (suc (suc (suc (suc (suc n)))))))) (started c) ≡ ok c')
      × (c'.nemu_state ≡ record { state = end; halt_pc = 0x100026; halt_ret = c.named 0 })
      × ((c'.gpr 0).long ≡ 0)
      × (load_bytes 4 c'.pmem 0x100027 ≡ 0x1234)
      × (load_bytes 2 c'.pmem 0x10002b ≡ 1)
      × (load_bytes 2 c'.pmem 0xfe02f ≡ 1)
unfolding run exec_once isa_exec_once again run_row select instpats decode_operand execute write_reg
    rm_write reg_write reg_read check_reg_index decode_rm load_addr load_sib displaced load_disp
    add_reg x86_inst_fetch mem_read mem_write host_read host_write host_len load_bytes store_bytes
    started img copy_bytes restart add32 sub32 sext shl32 set_nemu_state
x86_image-trap n c = (_, refl, refl, refl, refl, refl, refl)
