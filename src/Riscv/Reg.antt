-- ===== src/Riscv/Reg.antt =====
-- The register names of ysyx-workbench/nemu/src/isa/riscv32/reg.c.
use rv32i.Base.{
  ℕ, ◌+◌, Bool, true, false, ◌==◌, ◌&&◌, if◌then◌else◌, List, [], ◌∷◌, Option, none, some, codes,
  drop,
}
use rv32i.Machine.{Machine}

unfoldable pub regs : List (List ℕ)
regs =
    codes "$0"
    ∷ codes "ra"
    ∷ codes "sp"
    ∷ codes "gp"
    ∷ codes "tp"
    ∷ codes "t0"
    ∷ codes "t1"
    ∷ codes "t2"
    ∷ codes "s0"
    ∷ codes "s1"
    ∷ codes "a0"
    ∷ codes "a1"
    ∷ codes "a2"
    ∷ codes "a3"
    ∷ codes "a4"
    ∷ codes "a5"
    ∷ codes "a6"
    ∷ codes "a7"
    ∷ codes "s2"
    ∷ codes "s3"
    ∷ codes "s4"
    ∷ codes "s5"
    ∷ codes "s6"
    ∷ codes "s7"
    ∷ codes "s8"
    ∷ codes "s9"
    ∷ codes "s10"
    ∷ codes "s11"
    ∷ codes "t3"
    ∷ codes "t4"
    ∷ codes "t5"
    ∷ codes "t6"
    ∷ []

-- strcmp(s, t) == 0
unfoldable pub same_text : List ℕ → List ℕ → Bool
same_text [] [] = true
same_text [] (d ∷ t) = false
same_text (c ∷ s) [] = false
same_text (c ∷ s) (d ∷ t) = c == d && same_text s t

-- The loop from index `i` on.
unfoldable pub find_reg : List (List ℕ) → ℕ → List ℕ → Option ℕ
unfolding same_text
find_reg [] i s = none
find_reg (r ∷ rs) i s = if same_text s r then some i else find_reg rs (i + 1) s

-- `none` stands for *success = false.
unfoldable pub isa_reg_str2val : List ℕ → Machine → Option ℕ
unfolding regs same_text find_reg
isa_reg_str2val s m =
    if same_text s (codes "$0")
    then some (m.gpr 0)
    else (if same_text s (codes "$pc")
        then some m.pc
        else elim (find_reg (drop 1 regs) 1 (drop 1 s)) [ none ↦ none | some i ↦ some (m.gpr i) ])
