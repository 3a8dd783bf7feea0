-- ===== src/Guest.antt =====
-- What decode_exec and isa_exec_once of ysyx-workbench/nemu/src/isa/mips32/inst.c and
-- src/isa/loongarch32r/inst.c have in common: the table, decode_operand and the bodies are a
-- guest's own. So are the loop of execute over a guest and its built-in image.
pub mod Invariant
use rv32i.Base.{ℕ, zero, suc, true, false, List, Option, none, some, Outcome, ok, and_then}
use rv32i.Machine.{Machine, Command, pure, ◌>>=◌, ◌>>◌, gpr_write, is_running}
use rv32i.Memory.{reset_vector, guest_to_host, inst_fetch}
use rv32i.Pattern.{Row, select}
use rv32i.Riscv.Exec.{Decode, Operands}
use rv32i.Riscv.Init.{copy_words, restart}
use rv32i.Cpu.{exec_once_of}

module _ {T O : Type 0} (instpats : List (Row T O)) (decode_operand : ℕ → T → Command Operands)
    (execute : O → Decode → Operands → Command Decode) where
  -- INSTPAT_MATCH of the row, and the reset of $zero behind INSTPAT_END.
  unfoldable pub run_row : Option (Row T O) → Decode → Command Decode
  unfolding gpr_write
  run_row none s = do gpr_write 0 0; pure s
  run_row (some row) s = do
    o ← decode_operand s.inst row.operands
    s' ← execute row.op s o
    gpr_write 0 0
    pure s'

  unfoldable pub decode_exec : Decode → Command Decode
  unfolding select run_row
  decode_exec s m =
      let s' = record s { dnpc = s.snpc } in
      and_then (select instpats s'.inst) λ row. run_row row s' m

  unfoldable pub isa_exec_once : Decode → Command Decode
  unfolding inst_fetch decode_exec
  isa_exec_once s = do
    (inst, snpc) ← inst_fetch s.snpc 4
    decode_exec (record s { inst = inst; snpc = snpc })

-- init_isa with the image of the guest.
unfoldable pub init_isa : List ℕ → Machine → Machine
unfolding copy_words guest_to_host restart
init_isa img m = restart (record m { pmem = copy_words img (guest_to_host reset_vector) m.pmem })

-- The loop of execute, without watchpoints: at most `n` instructions.
unfoldable pub run : (Decode → Command Decode) → ℕ → Machine → Outcome Machine
run isa zero m = ok m
run isa (suc n) m =
    and_then (exec_once_of isa m.pc m)
      λ m'. elim (is_running m'.nemu_state.state) [ true ↦ run isa n m' | false ↦ ok m' ]
