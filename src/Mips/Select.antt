-- ===== src/Mips/Select.antt =====
-- Which row of the mips32 table an instruction word selects.
use rv32i.Base.{
  ℕ, ◌≡◌, refl, arith, true, ◌==◌, ◌&&◌, if◌then◌else◌, List, [], ◌∷◌, ap, ◌∙◌, Option, none, some,
  ok,
}
use rv32i.Word.{bits}
use rv32i.Pattern.{select}
use rv32i.Pattern.Parts.{is_any, value, part, parts, by_parts, all_follow, select-by_parts}
use rv32i.Mips.Exec.{InstType, Op, InstRow, instpats}

abbrev widths : List ℕ
widths = 6 ∷ 20 ∷ 6 ∷ []

instpats_follow : all_follow widths instpats ≡ true
unfolding all_follow instpats
instpats_follow = refl

-- The major opcodes LUI, LW, SW and SPECIAL2, the last with the function SDBBP.
unfoldable pub opcode_map : ℕ → Op × InstType
opcode_map x =
    if bits x 31 26 == 0x0f
    then (Op.lui, InstType.u)
    else if bits x 31 26 == 0x23
    then (Op.lw, InstType.i)
    else if bits x 31 26 == 0x2b
    then (Op.sw, InstType.i)
    else if (bits x 31 26 == 0x1c && bits x 5 0 == 0x3f)
    then (Op.sdbbp, InstType.n)
    else (Op.inv, InstType.n)

abbrev entry_of : Option InstRow → Option (Op × InstType)
entry_of none = none
entry_of (some row) = some (row.op, row.operands)

chosen-opcode_map : (x : ℕ) → entry_of (by_parts widths instpats x) ≡ some (opcode_map x)
unfolding by_parts parts part is_any value instpats opcode_map
chosen-opcode_map x = ground arith

entry_of-some :
    (o : Option InstRow) (e : Op × InstType)
    → entry_of o ≡ some e
    → (row : InstRow) × (o ≡ some row) × ((row.op, row.operands) ≡ e)
entry_of-some none e h = cc
entry_of-some (some row) e h = (row, refl, cc)

-- Every word selects a row, with the operation and the operand type that the major opcodes give.
pub select-mips_map :
    (x : ℕ)
    → (row : InstRow) × (select instpats x ≡ ok (some row))
      × ((row.op, row.operands) ≡ opcode_map x)
select-mips_map x =
    let (row, e, same) =
      entry_of-some (by_parts widths instpats x) (opcode_map x) (chosen-opcode_map x) in
    (row, select-by_parts widths instpats x instpats_follow ∙ ap ok e, same)
