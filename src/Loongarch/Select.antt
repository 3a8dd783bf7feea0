-- ===== src/Loongarch/Select.antt =====
-- Which row of the loongarch32r table an instruction word selects.
use rv32i.Base.{
  ℕ, ◌≡◌, refl, arith, true, ◌==◌, if◌then◌else◌, List, [], ◌∷◌, ap, ◌∙◌, Option, none, some, ok,
}
use rv32i.Word.{bits}
use rv32i.Pattern.{select}
use rv32i.Pattern.Parts.{is_any, value, part, parts, by_parts, all_follow, select-by_parts}
use rv32i.Loongarch.Exec.{InstType, Op, InstRow, instpats}

abbrev widths : List ℕ
widths = 15 ∷ 7 ∷ 3 ∷ 7 ∷ []

instpats_follow : all_follow widths instpats ≡ true
unfolding all_follow instpats
instpats_follow = refl

-- The opcodes of PCADDU12I, LD.W, ST.W and BREAK.
unfoldable pub opcode_map : ℕ → Op × InstType
opcode_map x =
    if bits x 31 25 == 0x0e
    then (Op.pcaddu12i, InstType.ri20)
    else if bits x 31 22 == 0xa2
    then (Op.ld_w, InstType.ri12)
    else if bits x 31 22 == 0xa6
    then (Op.st_w, InstType.ri12)
    else if bits x 31 15 == 0x54
    then (Op.break_, InstType.n)
    else (Op.inv, InstType.n)

abbrev entry_of : Option InstRow → Option (Op × InstType)
entry_of none = none
entry_of (some row) = some (row.op, row.operands)

chosen-opcode_map : (x : ℕ) → entry_of (by_parts widths instpats x) ≡ some (opcode_map x)
unfolding by_parts parts part is_any value instpats opcode_map
chosen-opcode_map x = ground arith

entry_of-some :
    (o : Option InstRow) (e : Op × InstType)
    → entry_of o ≡ some e
    → (row : InstRow) × (o ≡ some row) × ((row.op, row.operands) ≡ e)
entry_of-some none e h = cc
entry_of-some (some row) e h = (row, refl, cc)

-- Every word selects a row, with the operation and the operand type that the major opcodes give.
pub select-loongarch_map :
    (x : ℕ)
    → (row : InstRow) × (select instpats x ≡ ok (some row))
      × ((row.op, row.operands) ≡ opcode_map x)
select-loongarch_map x =
    let (row, e, same) =
      entry_of-some (by_parts widths instpats x) (opcode_map x) (chosen-opcode_map x) in
    (row, select-by_parts widths instpats x instpats_follow ∙ ap ok e, same)
