-- ===== src/Riscv/Select.antt =====
-- Which row of the table an instruction word selects, by its fields.
use rv32i.Base.{
  ℕ, ◌≡◌, refl, arith, Bool, true, ◌&&◌, if◌then◌else◌, List, [], ◌∷◌, take, drop, ap, ◌∙◌, Option,
  none, some, ok,
}
use rv32i.Pattern.{select}
use rv32i.Pattern.Agrees.{digits_onto}
use rv32i.Pattern.Parts.{part, parts, by_parts, all_follow, select-by_parts}
use rv32i.Riscv.Table.{InstRow, instpats}
use rv32i.Riscv.Fields.{Fields, fields_of}

-- opcode, rd, funct3, rs1 with rs2, funct7.
abbrev widths : List ℕ
widths = 7 ∷ 5 ∷ 3 ∷ 10 ∷ 7 ∷ []

-- The test of a row on the fields of a word.
unfoldable pub row_test : InstRow → Fields → Bool
unfolding part digits_onto
row_test row f =
    let p₁ = digits_onto row.pattern [] in
    let p₂ = drop 7 p₁ in
    let p₃ = drop 5 p₂ in
    let p₄ = drop 3 p₃ in
    part (take 7 p₁) f.opcode
    && (part (take 5 p₂) f.rd
        && (part (take 3 p₃) f.funct3
            && (part (take 10 p₄) f.rs && part (take 7 (drop 10 p₄)) f.funct7)))

unfoldable pub choose : List InstRow → Fields → Option InstRow
unfolding row_test
choose [] f = none
choose (row ∷ rows) f = if row_test row f then some row else choose rows f

row_test-parts :
    (row : InstRow) (x : ℕ)
    → row_test row (fields_of x) ≡ parts widths (digits_onto row.pattern []) x
unfolding row_test parts
row_test-parts row x = ground arith

choose-by_parts : (rows : List InstRow) (x : ℕ) → by_parts widths rows x ≡ choose rows (fields_of x)
unfolding by_parts choose
choose-by_parts [] x = refl
choose-by_parts (row ∷ rows) x = rw (row_test-parts row x) (
    ap (λ rest. if parts widths (digits_onto row.pattern []) x then some row else rest)
      (choose-by_parts rows x))

instpats_follow : all_follow widths instpats ≡ true
unfolding all_follow instpats
instpats_follow = refl

-- Every word selects the row that its fields choose.
pub select-instpats : (x : ℕ) → select instpats x ≡ ok (choose instpats (fields_of x))
select-instpats x =
    select-by_parts widths instpats x instpats_follow ∙ ap ok (choose-by_parts instpats x)
