-- ===== src/X86/Address.antt =====
-- load_addr of ysyx-workbench/nemu/src/isa/x86/inst.c gives the effective address.
use rv32i.Base.{
  then_ok, ℕ, ◌+◌, ◌*◌, ◌/◌, ◌%◌, ◌^◌, ◌≤◌, ◌<◌, ◌≡◌, arith, false, ◌==◌, if◌then◌else◌, ok, ap,
  ap₂, sym, subst, ◌∙◌, Bool-cases, inl, inr, ◌⊎◌,
}
use rv32i.Word.{u32}
use rv32i.Memory.{msize, load_bytes}
use rv32i.X86.State.{Cpu86, Decode}
use rv32i.X86.Operand.{ModRm, Parts, displaced, load_addr}
use rv32i.X86.Effective.{
  long, base_of, has_base, has_index, disp_size, disp_at, effective, tail_size,
}
use rv32i.X86.Fetch.{
  HasRoom, Advanced, parts_of, load_sib-ok, LoadsDisp, load_disp-ok, value_of, IsReg, add_reg-ok,
}

-- What the registers and the size of the displacement are, once mod has been looked at.
record IsPlaced (c : Cpu86) (m : ModRm) (b : ℕ) (p : Parts × ℕ) : Type 0 where
  size : p.1 ≡ disp_size m b
  base : value_of c p.0.base_reg ≡ (if has_base m b then long c (base_of m b) else 0)
  index :
      value_of c p.0.index_reg * 2 ^ p.0.scale
      ≡ (if has_index m b then long c (b / 8 % 8) * 2 ^ (b / 64 % 4) else 0)
  base_reg : IsReg p.0.base_reg
  index_reg : IsReg p.0.index_reg

displaced-IsPlaced :
    (c : Cpu86) (m : ModRm) (b : ℕ)
    → m.mode < 3
    → m.r_m < 8
    → IsPlaced c m b (displaced m (parts_of m b))
unfolding displaced value_of IsReg
displaced-IsPlaced c m b mode r_m = elim (Bool-cases (m.r_m == 4)) [
  | inl e ↦ rw e (record {
    size = ground arith;
    base = ground arith;
    index = ground arith;
    base_reg = ground arith;
    index_reg = ground arith;
  })
  | inr e ↦ rw e (record {
    size = ground arith;
    base = ground arith;
    index = ground arith;
    base_reg = ground arith;
    index_reg = ground arith;
  })
]

size-cases : (m : ModRm) (b : ℕ) → (disp_size m b ≡ 0) ⊎ (disp_size m b ≡ 1) ⊎ (disp_size m b ≡ 4)
size-cases m b = ground arith

disp_at-lt : (mem : ℕ → ℕ) (off n : ℕ) → ((j : ℕ) → mem j < 256) → disp_at mem off n < u32
unfolding load_bytes
disp_at-lt mem off n bytes =
    ground (arith, bytes off, bytes (off + 1), bytes (off + 1 + 1), bytes (off + 1 + 1 + 1))

sum_of :
    (d base index base' index' d' : ℕ)
    → base ≡ base'
    → index ≡ index'
    → d ≡ d'
    → ((d + base * 2 ^ 0) % u32 + index) % u32 ≡ (base' + index' + d') % u32
sum_of d base index base' index' d' p q r = omega arith

not_three : (a : ℕ) → a < 3 → (a == 3) ≡ false
not_three a h = ground arith

width : (n k : ℕ) → n ≡ k → (k ≡ 0) ⊎ (k ≡ 1) ⊎ (k ≡ 4) → (n ≡ 0) ⊎ (n ≡ 1) ⊎ (n ≡ 4)
width n k e h = subst (λ j. (j ≡ 0) ⊎ (j ≡ 1) ⊎ (j ≡ 4)) (sym e) h

-- Behind a ModR/M byte with mod below 3, load_addr takes the bytes that the addressing mode has and
-- gives the effective address: base, scaled index and displacement as the encoding says, modulo
-- 2 ^ 32. The tail, as long as the mode makes it, lies in memory and within the 15 bytes of an
-- instruction.
pub load_addr-effective :
    (s : Decode) (m : ModRm) (c : Cpu86)
    → m.mode < 3
    → m.r_m < 8
    → ((j : ℕ) → c.pmem j < 256)
    → s.pc ≤ s.snpc
    → s.snpc + tail_size c m s.snpc < s.pc + 16
    → s.snpc + tail_size c m s.snpc ≤ msize
    → (s' : Decode) × (load_addr s m c ≡ ok ((effective c m s.snpc, s'), c))
      × (s'.snpc ≡ s.snpc + tail_size c m s.snpc)
      × (s'.pc ≡ s.pc)
unfolding load_addr effective tail_size Advanced LoadsDisp
load_addr-effective s m c mode r_m bytes ordered short fits =
    let b = c.pmem s.snpc in
    let p = displaced-IsPlaced c m b mode r_m in
    let (s₁, e₁, (far₁, same₁)) =
      load_sib-ok s m c (record { ordered = ordered; short = omega arith; fits = omega arith }) in
    let (q, n) = displaced m (parts_of m b) in
    let size : n ≡ disp_size m b = p.size in
    let room : HasRoom n s₁ = record {
      ordered = omega arith;
      short = omega (arith, far₁, same₁, size);
      fits = omega (arith, far₁, same₁, size);
    } in
    let (s₂, e₂, (far₂, same₂)) =
      load_disp-ok s₁ n c bytes (width n (disp_size m b) size (size-cases m b)) room in
    let disp = disp_at c.pmem s₁.snpc n in
    let a₁ = add_reg-ok disp q.base_reg 0 c (disp_at-lt c.pmem s₁.snpc n bytes) p.base_reg in
    let sum₁ = (disp + value_of c q.base_reg * 2 ^ 0) % u32 in
    let a₂ = add_reg-ok sum₁ q.index_reg q.scale c (omega arith) p.index_reg in
    (
      s₂,
      rw (not_three m.mode mode) (
          then_ok _ e₁
          ∙ then_ok _ e₂
          ∙ then_ok _ a₁
          ∙ then_ok _ a₂
          ∙ ap (λ v. ok ((v, s₂), c))
              (sum_of _ _ _ _ _ _ p.base p.index (ap₂ (disp_at c.pmem) far₁ size))),
      omega (arith, far₁, far₂, size),
      same₂ ∙ same₁,
    )
