-- ===== src/Riscv/Bodies.antt =====
-- What the parts that the bodies are made of keep: registers and program counters are words, and
-- pmem holds bytes.
use rv32i.Base.{ℕ, ◌^◌, ◌<◌, ◌≡◌, arith, Bool, Outcome, ok}
use rv32i.Word.{u32, add32}
use rv32i.Machine.{
  Machine, RunState, pure, ◌>>=◌, ◌>>◌, check_reg_idx, gpr_read, gpr_write, set_nemu_state,
}
use rv32i.Machine.Ensures.{Ensures, returned, bind, value, of_eq}
use rv32i.Memory.{paddr_read, paddr_write, vaddr_read, vaddr_write, vaddr_ifetch, inst_fetch}
use rv32i.Memory.Laws.{AreBytes, paddr_read-lt, paddr_write-AreBytes}
use rv32i.Riscv.Exec.{
  Decode, Operands, invalid_inst, write_back, write_back_outcome, branch, load, store,
}
use rv32i.Riscv.Bounds.{add32-lt}

-- Registers hold words, and pmem bytes.
pub record IsMachine (m : Machine) : Type 0 where
  pub words : (i : ℕ) → m.gpr i < u32
  pub bytes : AreBytes m

-- The program counters of an instruction are words.
pub record IsDecode (s : Decode) : Type 0 where
  pub pc_lt : s.pc < u32
  pub snpc_lt : s.snpc < u32
  pub dnpc_lt : s.dnpc < u32

pub record AreOperands (o : Operands) : Type 0 where
  pub src1_lt : o.src1 < u32
  pub src2_lt : o.src2 < u32
  pub imm_lt : o.imm < u32

-- The state behind a body.
abbrev pub Done : Decode → Machine → Type 0
Done s m = IsDecode s × IsMachine m

module _ {m : Machine} (k : IsMachine m) where
  pub gpr_read-Ensures : (i : ℕ) → Ensures (λ v m'. (v < u32) × IsMachine m') (gpr_read i m)
  unfolding gpr_read check_reg_idx
  gpr_read-Ensures i = value (check_reg_idx i) λ j e. returned (k.words j, k)

  pub gpr_write-Ensures : (i v : ℕ) → v < u32 → Ensures (λ _. IsMachine) (gpr_write i v m)
  unfolding gpr_write check_reg_idx
  gpr_write-Ensures i v h =
      value (check_reg_idx i)
        λ j e. returned (record { words = λ n. ground (arith, k.words n); bytes = k.bytes })

  pub paddr_read-Ensures :
      (addr len : ℕ) → Ensures (λ v m'. (v < 256 ^ len) × IsMachine m') (paddr_read addr len m)
  paddr_read-Ensures addr len =
      of_eq (paddr_read addr len m)
        λ v m' e. let (a, b) = paddr_read-lt addr len m k.bytes e in (a, rw b k)

  pub paddr_write-Ensures : (addr len w : ℕ) → Ensures (λ _. IsMachine) (paddr_write addr len w m)
  paddr_write-Ensures addr len w = of_eq (paddr_write addr len w m) λ _ m' e.
      let (a, b) = paddr_write-AreBytes addr len w m k.bytes e in
      record { words = λ i. rw b (k.words i); bytes = a }

module _ {s : Decode} {m : Machine} (d : IsDecode s) (k : IsMachine m) where
  pub write_back-Ensures : (rd v : ℕ) → v < u32 → Ensures Done (write_back s rd v m)
  unfolding write_back
  write_back-Ensures rd v h = bind _ (gpr_write-Ensures k rd v h) λ _ m' k'. returned (d, k')

  pub write_back_outcome-Ensures :
      (rd : ℕ) (o : Outcome ℕ)
      → ((v : ℕ) → o ≡ ok v → v < u32)
      → Ensures Done (write_back_outcome s rd o m)
  unfolding write_back_outcome
  write_back_outcome-Ensures rd o h = value o λ v e. write_back-Ensures rd v (h v e)

  pub branch-Ensures : (taken : Bool) (imm : ℕ) → Ensures Done (branch s taken imm m)
  unfolding branch add32
  branch-Ensures taken imm =
      returned
        (record { pc_lt = d.pc_lt; snpc_lt = d.snpc_lt; dnpc_lt = ground (arith, d.snpc_lt) }, k)

  -- A register and then dnpc are written: jal and jalr.
  pub jump-Ensures :
      (rd target : ℕ)
      → target < u32
      → Ensures Done ((do gpr_write rd s.snpc; pure (record s { dnpc = target })) m)
  jump-Ensures rd target h =
      bind _ (gpr_write-Ensures k rd s.snpc d.snpc_lt)
        λ _ m' k'. returned (record { pc_lt = d.pc_lt; snpc_lt = d.snpc_lt; dnpc_lt = h }, k')

  pub load-Ensures :
      (rd addr len : ℕ) (f : ℕ → ℕ)
      → ((v : ℕ) → v < 256 ^ len → f v < u32)
      → Ensures Done (load s rd addr len f m)
  unfolding load vaddr_read write_back
  load-Ensures rd addr len f h =
      bind _ (paddr_read-Ensures k addr len)
        λ v m' p. bind _ (gpr_write-Ensures p.1 rd (f v) (h v p.0)) λ _ m″ k″. returned (d, k″)

  pub store-Ensures : (addr len w : ℕ) → Ensures Done (store s addr len w m)
  unfolding store vaddr_write
  store-Ensures addr len w = bind _ (paddr_write-Ensures k addr len w) λ _ m' k'. returned (d, k')

  -- NEMUTRAP with the code in register `i`.
  pub halt-Ensures :
      (i : ℕ)
      → Ensures Done ((do code ← gpr_read i; set_nemu_state RunState.end s.pc code; pure s) m)
  unfolding set_nemu_state
  halt-Ensures i =
      bind _ (gpr_read-Ensures k i)
        λ code m' p. returned (d, record { words = p.1.words; bytes = p.1.bytes })

pub inst_fetch-Ensures :
    {m : Machine} (pc len : ℕ)
    → IsMachine m
    → Ensures (λ r m'. (r.1 < u32) × IsMachine m') (inst_fetch pc len m)
unfolding inst_fetch vaddr_ifetch
inst_fetch-Ensures pc len k =
    bind _ (paddr_read-Ensures k pc len) λ v m' p. returned (add32-lt pc len, p.1)

pub invalid_inst-Ensures :
    {m : Machine} (pc : ℕ) → IsMachine m → Ensures (λ _. IsMachine) (invalid_inst pc m)
unfolding invalid_inst set_nemu_state
invalid_inst-Ensures pc k = bind _ (inst_fetch-Ensures pc 4 k) λ r m₁ p.
    bind _ (inst_fetch-Ensures r.1 4 p.1)
      λ _ m₂ q. returned (record { words = q.1.words; bytes = q.1.bytes })
