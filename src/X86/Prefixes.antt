-- ===== src/X86/Prefixes.antt =====
-- The label again of ysyx-workbench/nemu/src/isa/x86/inst.c: operand size prefixes end.
use rv32i.Base.{
  and_then-eq-ok, Bool-cases, Option-cases, inl, inr, ℕ, zero, suc, ◌+◌, ◌≤◌, ◌<◌, ◌≡◌, refl, arith,
  Bool, true, false, ◌&&◌, not, ◌||◌, List, [], ◌∷◌, Option, some, if◌then◌else◌, Outcome, ok, fail,
  ◌≢◌, out_of_fuel, and_then, sym, subst,
}
use rv32i.Word.{u32, add32, sub32}
use rv32i.Pattern.Agrees.{digits_onto}
use rv32i.Pattern.Parts.{and-true, parts, by_parts, select-by_parts}
use rv32i.X86.Select.{widths, instpats_follow}
use rv32i.X86.State.{Cpu86, Decode, Run, x86_inst_fetch, mem_read}
use rv32i.X86.Table.{InstType, Op, InstRow, instpats}
use rv32i.X86.Exec.{
  Operands, no_operands, decode_operand, execute, run_row, again, isa_exec_once, is_data_size,
  width_of,
}
use rv32i.X86.Ends.{
  Ends, returns, and_then-Ends, and_then-Ends_eq, x86_inst_fetch-Ends, decode_operand-Ends,
  execute-Ends, Ends-fuel,
}

-- In the table the prefix has no operands.
abbrev is_n : InstType → Bool
is_n InstType.n = true
is_n _ = false

abbrev is_plain : InstRow → Bool
is_plain row = not (is_data_size row.op) || is_n row.operands.0

are_plain : List InstRow → Bool
are_plain [] = true
are_plain (row ∷ rows) = is_plain row && are_plain rows

instpats_plain : are_plain instpats ≡ true
unfolding are_plain instpats
instpats_plain = refl

found-is_plain :
    (b : Bool) (r row : InstRow) {o : Option InstRow}
    → is_plain r ≡ true
    → (o ≡ some row → is_plain row ≡ true)
    → (if b then some r else o) ≡ some row
    → is_plain row ≡ true
found-is_plain true r row plain later e =
    let same : r ≡ row = cc in subst (λ t. is_plain t ≡ true) same plain
found-is_plain false r row plain later e = later e

by_parts-is_plain :
    (rows : List InstRow) (x : ℕ) (row : InstRow)
    → are_plain rows ≡ true
    → by_parts widths rows x ≡ some row
    → is_plain row ≡ true
unfolding are_plain by_parts
by_parts-is_plain [] x row plain e = cc
by_parts-is_plain (r ∷ rows) x row plain e =
    let (a, b) = and-true (is_plain r) _ plain in
    found-is_plain (parts widths (digits_onto r.pattern []) x) r row a
      (by_parts-is_plain rows x row b) e

-- The bytes that an instruction has taken.
abbrev taken : Decode → ℕ
taken s = sub32 s.snpc s.pc

x86_inst_fetch-taken :
    (s : Decode) (c : Cpu86) (a : (ℕ × Decode) × Cpu86)
    → s.pc < u32
    → x86_inst_fetch s 1 c ≡ ok a
    → taken s < 16
    → (taken a.0.1 ≡ suc (taken s)) × (taken a.0.1 < 16) × (a.0.1.pc ≡ s.pc)
unfolding x86_inst_fetch add32 sub32
x86_inst_fetch-taken s c a low e few =
    let (b, read, rest) = and_then-eq-ok (mem_read s.snpc 1 c) _ e in ground arith

Bool-apart : {b : Bool} → b ≡ true → b ≡ false → ⊥
Bool-apart t f = cc

-- What follows the operands: the label again, or a body.
after-Ends :
    (b : Bool) (op : Op) (s : Decode) (o : Operands) (w : ℕ) (c : Cpu86) (k : Decode → Run Decode)
    → (b ≡ true → Ends (k s c))
    → Ends ((elim b as (λ _. Run Decode) [ true ↦ k s | false ↦ execute op s o w ]) c)
after-Ends true op s o w c k go = go refl
after-Ends false op s o w c k go = execute-Ends op s o w c

is_n-eq : (t : InstType) → is_n t ≡ true → t ≡ InstType.n
is_n-eq InstType.n h = refl
is_n-eq _ h = cc

plain-type : (b n : Bool) → (not b || n) ≡ true → b ≡ true → n ≡ true
plain-type true n h e = h
plain-type false n h e = cc

run_row-Ends :
    (row : InstRow) (opcode : ℕ) (size : Bool) (s : Decode) (c : Cpu86) (k : Decode → Run Decode)
    → is_plain row ≡ true
    → ((s' : Decode) (c' : Cpu86) → s'.snpc ≡ s.snpc → s'.pc ≡ s.pc → Ends (k s' c'))
    → Ends (run_row (some row) opcode size s k c)
unfolding run_row
run_row-Ends row opcode size s c k plain go = elim (Bool-cases (is_data_size row.op)) [
  | inl again_op ↦
      let plain_type = is_n-eq row.operands.0 (plain-type (is_data_size row.op) _ plain again_op) in
      subst
        (λ t.
          Ends (and_then (decode_operand s opcode (width_of row.operands.1 size) t c) (next row)))
        (sym plain_type)
        (unfold decode_operand in
          after-Ends (is_data_size row.op) row.op (record s { dnpc = s.snpc }) no_operands
            (width_of row.operands.1 size) c k (λ _. go (record s { dnpc = s.snpc }) c refl refl))
  | inr body ↦
      and_then-Ends (decode_operand-Ends s opcode (width_of row.operands.1 size) row.operands.0 c)
        λ a.
          after-Ends (is_data_size row.op) row.op (record a.0.1 { dnpc = a.0.1.snpc }) a.0.0
            (width_of row.operands.1 size) a.1 k (λ bad. absurd (Bool-apart bad body))
]
  where
    next : InstRow → (Operands × Decode) × Cpu86 → Outcome (Decode × Cpu86)
    next r ((o, s'), c') =
        (elim (is_data_size r.op) as (λ _. Run Decode) [
          | true ↦ k (record s' { dnpc = s'.snpc })
          | false ↦ execute r.op (record s' { dnpc = s'.snpc }) o (width_of r.operands.1 size)
        ])
          c'

again-Ends :
    (fuel : ℕ) (size : Bool) (s : Decode) (c : Cpu86)
    → s.pc < u32
    → taken s < 16
    → 16 ≤ taken s + fuel
    → Ends (again fuel size s c)
unfolding again
again-Ends zero size s c low few enough = absurd (omega arith)
again-Ends (suc fuel) size s c low few enough = and_then-Ends_eq (x86_inst_fetch-Ends s 1 c) λ a e.
    let (more, few', same_pc) = x86_inst_fetch-taken s c a low e few in
    subst (λ r. Ends (and_then r (λ row. run_row row a.0.0 size a.0.1 (again fuel true) a.1)))
      (sym (select-by_parts widths instpats a.0.0 instpats_follow))
      (elim (Option-cases (by_parts widths instpats a.0.0)) [
        | inl none_found ↦
            subst (λ r. Ends (run_row r a.0.0 size a.0.1 (again fuel true) a.1)) (sym none_found)
              (unfold run_row in returns _)
        | inr (row, found) ↦
            subst (λ r. Ends (run_row r a.0.0 size a.0.1 (again fuel true) a.1)) (sym found)
              (run_row-Ends row a.0.0 size a.0.1 a.1 (again fuel true)
                (by_parts-is_plain instpats a.0.0 row instpats_plain found)
                (λ s' c' p q.
                  again-Ends fuel true s' c' (omega arith) (ground arith) (ground arith)))
      ])

-- Whatever the memory and the registers, an instruction is executed, or ends in a fault, within the
-- 16 rounds of the label again that the model has: operand size prefixes are no endless loop, since
-- the array for the trace has 16 bytes.
pub isa_exec_once-ends :
    (s : Decode) (c : Cpu86) → s.pc < u32 → s.snpc ≡ s.pc → isa_exec_once s c ≢ fail out_of_fuel
unfolding isa_exec_once sub32
isa_exec_once-ends s c low fresh =
    Ends-fuel (again-Ends 16 false s c low (ground arith) (omega arith))
