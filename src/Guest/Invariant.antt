-- ===== src/Guest/Invariant.antt =====
-- What every instruction of a guest keeps, if decode_operand and the bodies keep it.
use rv32i.Base.{ℕ, ◌<◌, List, Option, none, some}
use rv32i.Word.{u32}
use rv32i.Machine.{Machine, Command}
use rv32i.Machine.Ensures.{Ensures, bind, value}
use rv32i.Pattern.{Row, select}
use rv32i.Riscv.Exec.{Decode, Operands}
use rv32i.Riscv.Bodies.{IsMachine, IsDecode, AreOperands, Done, inst_fetch-Ensures}
use rv32i.Riscv.Invariant.{Stepped, reset_zero}
use rv32i.Guest.{run_row, decode_exec, isa_exec_once}

module _ {T O : Type 0} (decode_operand : ℕ → T → Command Operands)
    (execute : O → Decode → Operands → Command Decode) where
  -- Operands are words, and the bodies keep words words.
  pub record AreBodies : Type 0 where
    pub operands :
        (x : ℕ) (t : T) {m : Machine}
        → IsMachine m
        → Ensures (λ o m'. AreOperands o × IsMachine m') (decode_operand x t m)
    pub bodies :
        (op : O) {s : Decode} (o : Operands) {m : Machine}
        → IsDecode s
        → AreOperands o
        → IsMachine m
        → Ensures Done (execute op s o m)

module _ {T O : Type 0} (instpats : List (Row T O)) (decode_operand : ℕ → T → Command Operands)
    (execute : O → Decode → Operands → Command Decode) (b : AreBodies decode_operand execute) where
  run_row-Ensures :
      (r : Option (Row T O)) {s : Decode} {m : Machine}
      → IsDecode s
      → IsMachine m
      → Ensures Stepped (run_row instpats decode_operand execute r s m)
  unfolding run_row
  run_row-Ensures none d k = reset_zero (d, k)
  run_row-Ensures (some r) {s} d k =
      bind _ (b.operands s.inst r.operands k)
        λ o m₁ p. bind _ (b.bodies r.op o d p.0 p.1) λ s₂ m₂ dk. reset_zero dk

  decode_exec-Ensures :
      (s : Decode) {m : Machine}
      → s.pc < u32
      → s.snpc < u32
      → IsMachine m
      → Ensures Stepped (decode_exec instpats decode_operand execute s m)
  unfolding decode_exec
  decode_exec-Ensures s {m} pc_lt snpc_lt k =
      value (select instpats s.inst)
        λ r e. run_row-Ensures r (record { pc_lt = pc_lt; snpc_lt = snpc_lt; dnpc_lt = snpc_lt }) k

  pub isa_exec_once-Ensures :
      (s : Decode) {m : Machine}
      → s.pc < u32
      → IsMachine m
      → Ensures Stepped (isa_exec_once instpats decode_operand execute s m)
  unfolding isa_exec_once
  isa_exec_once-Ensures s pc_lt k =
      bind _ (inst_fetch-Ensures s.snpc 4 k)
        λ r m₁ p. decode_exec-Ensures (record s { inst = r.0; snpc = r.1 }) pc_lt p.0 p.1
