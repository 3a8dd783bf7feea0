-- ===== src/X86/Fetch.antt =====
-- What the fetches of load_addr in ysyx-workbench/nemu/src/isa/x86/inst.c come to.
use native.Mathlib.Nat.{add-zero}
use rv32i.Base.{
  then_ok, ℕ, ◌+◌, ◌-◌, ◌*◌, ◌/◌, ◌%◌, ◌^◌, ◌≤◌, ◌<◌, ◌≡◌, refl, arith, true, ◌==◌, if◌then◌else◌,
  ltb, Option, none, some, ok, ap, sym, subst, ◌∙◌, lt→ltb, Bool-cases, inl, inr, ◌⊎◌,
}
use rv32i.Word.{u32, add32, sub32, shl32, sext}
use rv32i.Memory.{msize, load_bytes, store_bytes, host_read, host_len}
use rv32i.X86.State.{Cpu86, Decode, x86_inst_fetch, mem_read, reg_read, check_reg_index}
use rv32i.X86.Operand.{ModRm, Parts, load_sib, load_disp, add_reg}
use rv32i.X86.Effective.{long, sib_size, disp_at}

mod_add : (a t : ℕ) → (a + t % u32) % u32 ≡ (a + t) % u32
mod_add a t = omega arith

mem_read-ok :
    (addr len : ℕ) (c : Cpu86)
    → host_len len ≡ true
    → 0 < len
    → addr + len ≤ msize
    → mem_read addr len c ≡ ok (load_bytes len c.pmem addr, c)
unfolding mem_read host_read
mem_read-ok addr len c width pos fits = ground arith

-- There is room for `n` more bytes.
pub record HasRoom (n : ℕ) (s : Decode) : Type 0 where
  pub ordered : s.pc ≤ s.snpc
  pub short : s.snpc + n < s.pc + 16
  pub fits : s.snpc + n ≤ msize

-- The decoder has gone on by `n` bytes.
unfoldable pub Advanced : ℕ → Decode → Decode → Type 0
Advanced n s s' = (s'.snpc ≡ s.snpc + n) × (s'.pc ≡ s.pc)

fetch-ok :
    (s : Decode) (len : ℕ) (c : Cpu86)
    → host_len len ≡ true
    → 0 < len
    → HasRoom len s
    → (s' : Decode) × (x86_inst_fetch s len c ≡ ok ((load_bytes len c.pmem s.snpc, s'), c))
      × Advanced len s s'
unfolding x86_inst_fetch add32 sub32 Advanced
fetch-ok s len c width pos r =
    let ret = load_bytes len c.pmem s.snpc in
    let short : sub32 (add32 s.snpc len) s.pc < 16 = omega (arith, r.ordered, r.short, r.fits) in
    (
      record s { snpc = add32 s.snpc len; inst = store_bytes len s.inst (sub32 s.snpc s.pc) ret },
      then_ok _ (mem_read-ok s.snpc len c width pos r.fits) ∙ rw (lt→ltb _ 16 short),
      (omega (arith, r.fits), refl),
    )

-- base_reg, index_reg and scale, with the byte behind ModR/M.
abbrev pub parts_of : ModRm → ℕ → Parts
parts_of m b =
    if m.r_m == 4
    then record {
      base_reg = some (b % 8);
      index_reg = if b / 8 % 8 == 4 then none else some (b / 8 % 8);
      scale = b / 64 % 4;
    }
    else record { base_reg = some m.r_m; index_reg = none; scale = 0 }

pub load_sib-ok :
    (s : Decode) (m : ModRm) (c : Cpu86)
    → HasRoom (sib_size m) s
    → (s' : Decode) × (load_sib s m c ≡ ok ((parts_of m (c.pmem s.snpc), s'), c))
      × Advanced (sib_size m) s s'
unfolding load_sib Advanced load_bytes
load_sib-ok s m c r = elim (Bool-cases (m.r_m == 4)) [
  | inl e ↦
      let one : HasRoom 1 s = rw e at r in
      let (s', fetched, (far, same)) = fetch-ok s 1 c refl (omega arith) one in
      (s', rw e (then_ok _ fetched ∙ rw add-zero), (rw e far, same))
  | inr e ↦ (s, rw e, (rw e (omega arith), refl))
]

unfoldable pub LoadsDisp : Decode → Cpu86 → ℕ → Type 0
LoadsDisp s c n =
    HasRoom n s
    → (s' : Decode) × (load_disp s n c ≡ ok ((disp_at c.pmem s.snpc n, s'), c)) × Advanced n s s'

load_disp-none : (s : Decode) (c : Cpu86) → LoadsDisp s c 0
unfolding LoadsDisp load_disp Advanced
load_disp-none s c r = (s, refl, (omega arith, refl))

signed_byte : (b : ℕ) → b < 256 → sext (b + 0) 8 % u32 ≡ (if ltb b 128 then b else b + u32 - 256)
unfolding sext
signed_byte b byte = ground arith

load_disp-byte : (s : Decode) (c : Cpu86) → c.pmem s.snpc < 256 → LoadsDisp s c 1
unfolding LoadsDisp load_disp Advanced load_bytes
load_disp-byte s c byte r =
    let (s', fetched, far) = fetch-ok s 1 c refl (omega arith) r in
    (s', then_ok _ fetched ∙ ap (λ v. ok ((v, s'), c)) (signed_byte (c.pmem s.snpc) byte), far)

load_disp-word : (s : Decode) (c : Cpu86) → LoadsDisp s c 4
unfolding LoadsDisp load_disp Advanced
load_disp-word s c r =
    let (s', fetched, far) = fetch-ok s 4 c refl (omega arith) r in (s', then_ok _ fetched, far)

pub load_disp-ok :
    (s : Decode) (n : ℕ) (c : Cpu86)
    → ((j : ℕ) → c.pmem j < 256)
    → (n ≡ 0) ⊎ (n ≡ 1) ⊎ (n ≡ 4)
    → LoadsDisp s c n
load_disp-ok s n c bytes (inl e) = subst (LoadsDisp s c) (sym e) (load_disp-none s c)
load_disp-ok s n c bytes (inr (inl e)) =
    subst (LoadsDisp s c) (sym e) (load_disp-byte s c (bytes s.snpc))
load_disp-ok s n c bytes (inr (inr e)) = subst (LoadsDisp s c) (sym e) (load_disp-word s c)

unfoldable pub value_of : Cpu86 → Option ℕ → ℕ
value_of c none = 0
value_of c (some r) = long c r

unfoldable pub IsReg : Option ℕ → Type 0
IsReg none = Unit
IsReg (some r) = r < 8

pub add_reg-ok :
    (a : ℕ) (r : Option ℕ) (k : ℕ) (c : Cpu86)
    → a < u32
    → IsReg r
    → add_reg a r k c ≡ ok ((a + value_of c r * 2 ^ k) % u32, c)
unfolding add_reg value_of IsReg reg_read check_reg_index add32 shl32
add_reg-ok a none k c word reg = ap (λ v. ok (v, c)) small
  where
    small : a ≡ (a + 0 * 2 ^ k) % u32
    small = omega arith
add_reg-ok a (some r) k c word reg =
    rw (lt→ltb r 8 reg) (ap (λ v. ok (v, c)) (mod_add a (long c r * 2 ^ k)))
