-- ===== src/X86/Operand.antt =====
-- ModR_M, SIB, load_addr and decode_rm of ysyx-workbench/nemu/src/isa/x86/inst.c. Where the source has -1
-- for no register, here is none.
use rv32i.Base.{ℕ, ◌/◌, ◌%◌, Bool, false, ◌==◌, if◌then◌else◌, Option, none, some, fail, assertion}
use rv32i.Word.{u32, add32, shl32, sext}
use rv32i.X86.State.{Decode, Run, pure, ◌>>=◌, reg_read, x86_inst_fetch}

-- ModR_M and SIB.
pub record ModRm : Type 0 where
  pub r_m : ℕ
  pub reg : ℕ
  pub mode : ℕ

abbrev pub modrm : ℕ → ModRm
modrm val = record { r_m = val % 8; reg = val / 8 % 8; mode = val / 64 % 4 }

pub record Sib : Type 0 where
  pub base : ℕ
  pub index : ℕ
  pub ss : ℕ

abbrev pub sib : ℕ → Sib
sib val = record { base = val % 8; index = val / 8 % 8; ss = val / 64 % 4 }

-- base_reg, index_reg and scale.
pub record Parts : Type 0 where
  pub base_reg : Option ℕ
  pub index_reg : Option ℕ
  pub scale : ℕ

-- The SIB byte, where the code has one.
unfoldable pub load_sib : Decode → ModRm → Run (Parts × Decode)
unfolding x86_inst_fetch
load_sib s m =
    if m.r_m == 4
    then (do
      (val, s') ← x86_inst_fetch s 1
      let b = sib val
      pure (
        record {
          base_reg = some b.base;
          index_reg = if b.index == 4 then none else some b.index;
          scale = b.ss;
        },
        s',
      ))
    else pure (record { base_reg = some m.r_m; index_reg = none; scale = 0 }, s)

abbrev is_ebp : Option ℕ → Bool
is_ebp none = false
is_ebp (some r) = r == 5

-- The changes of base_reg and disp_size by mod.
unfoldable pub displaced : ModRm → Parts → Parts × ℕ
displaced m p =
    if m.mode == 0
    then (if is_ebp p.base_reg then (record p { base_reg = none }, 4) else (p, 0))
    else if m.mode == 1
    then (p, 1)
    else (p, 4)

-- The displacement, a byte of which is signed.
unfoldable pub load_disp : Decode → ℕ → Run (ℕ × Decode)
unfolding x86_inst_fetch sext
load_disp s disp_size = if disp_size == 0 then pure (0, s) else (do
  (disp, s') ← x86_inst_fetch s disp_size
  pure (if disp_size == 1 then sext disp 8 % u32 else disp, s'))

-- addr += reg_l(r) << scale, unless there is no register.
unfoldable pub add_reg : ℕ → Option ℕ → ℕ → Run ℕ
unfolding reg_read add32 shl32
add_reg addr none scale = pure addr
add_reg addr (some r) scale = do v ← reg_read r 4; pure (add32 addr (shl32 v scale))

unfoldable pub load_addr : Decode → ModRm → Run (ℕ × Decode)
unfolding load_sib displaced load_disp add_reg
load_addr s m = if m.mode == 3 then (λ c. fail assertion) else (do
  (p, s₁) ← load_sib s m
  let (q, disp_size) = displaced m p
  (disp, s₂) ← load_disp s₁ disp_size
  addr ← add_reg disp q.base_reg 0
  addr' ← add_reg addr q.index_reg q.scale
  pure (addr', s₂))

-- The operand of R_M, the address, and the field reg.
pub record Rm : Type 0 where
  pub rm_reg : Option ℕ
  pub rm_addr : ℕ
  pub reg : ℕ

unfoldable pub decode_rm : Decode → Run (Rm × Decode)
unfolding x86_inst_fetch load_addr
decode_rm s = do
  (val, s') ← x86_inst_fetch s 1
  let m = modrm val
  let at_address = do
    (addr, s'') ← load_addr s' m
    pure (record { rm_reg = none; rm_addr = addr; reg = m.reg }, s'')
  if m.mode == 3
      then pure (record { rm_reg = some m.r_m; rm_addr = 0; reg = m.reg }, s')
      else at_address
