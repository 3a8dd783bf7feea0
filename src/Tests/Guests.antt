-- ===== src/Tests/Guests.antt =====
-- The mips32 and loongarch32r guests at an instruction of their built-in images.
use rv32i.Base.{◌≡◌, ok, some}
use rv32i.Pattern.{select}
use rv32i.Mips.Exec as MipsExec
use rv32i.Mips.Select as MipsSelect
use rv32i.Loongarch.Exec as LoongarchExec
use rv32i.Loongarch.Select as LoongarchSelect

select-mips_map_example :
    (row : MipsExec.InstRow) × (select MipsExec.instpats 0x3c048000 ≡ ok (some row))
    × ((row.op, row.operands) ≡ MipsSelect.opcode_map 0x3c048000)
select-mips_map_example = MipsSelect.select-mips_map 0x3c048000

select-loongarch_map_example :
    (row : LoongarchExec.InstRow) × (select LoongarchExec.instpats 0x29804180 ≡ ok (some row))
    × ((row.op, row.operands) ≡ LoongarchSelect.opcode_map 0x29804180)
select-loongarch_map_example = LoongarchSelect.select-loongarch_map 0x29804180
