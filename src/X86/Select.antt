-- ===== src/X86/Select.antt =====
-- Which row of the x86 table an opcode selects.
use rv32i.Base.{
  ==_iff, zero, suc, Bool, false, ℕ, ◌≡◌, refl, arith, true, ◌==◌, ◌&&◌, if◌then◌else◌, List, [],
  ◌∷◌, ap, ◌∙◌, Option, none, some, ok, ◌/◌, ◌%◌, ◌<◌,
}
use rv32i.Pattern.{select}
use rv32i.Pattern.Parts.{
  is_any, value, part, parts, by_parts, all_follow, select-by_parts, and-true,
}
use rv32i.X86.Table.{InstType, Op, InstRow, instpats}

abbrev pub widths : List ℕ
widths = 3 ∷ 5 ∷ []

pub instpats_follow : all_follow widths instpats ≡ true
unfolding all_follow instpats
instpats_follow = refl

-- The body of an opcode, the type of its operands, and the width, where 0 is the operand size.
unfoldable pub opcode_map : ℕ → Op × InstType × ℕ
opcode_map x =
    if x == 0x0f
    then (Op.two_byte_esc, InstType.n, 0)
    else if x == 0x66
    then (Op.data_size, InstType.n, 0)
    else if x == 0x80
    then (Op.gp1, InstType.i2e, 1)
    else if x / 4 == 0x22
    then (if x / 2 % 2 == 0
        then (Op.mov_to_rm, InstType.g2e, if x % 2 == 0 then 1 else 0)
        else (Op.mov_from_rm, InstType.e2g, if x % 2 == 0 then 1 else 0))
    else if x / 4 == 0x28
    then (if x / 2 % 2 == 0
        then (Op.load_a, InstType.o2a, if x % 2 == 0 then 1 else 0)
        else (Op.store_a, InstType.a2o, if x % 2 == 0 then 1 else 0))
    else if x / 16 == 0xb
    then (Op.mov_imm, InstType.i2r, if x / 8 % 2 == 0 then 1 else 0)
    else if x / 2 == 0x63
    then (Op.mov_imm_to_rm, InstType.i2e, if x % 2 == 0 then 1 else 0)
    else if x == 0xcc
    then (Op.nemu_trap, InstType.n, 0)
    else (Op.inv, InstType.n, 0)

Op-discrete : Discrete Op
Op-discrete = hlevel

InstType-discrete : Discrete InstType
InstType-discrete = hlevel

same : {A : Type 0} → Discrete A → A → A → Bool
same d a b = elim (d a b) [ yes e ↦ true | no ne ↦ false ]

same-eq : {A : Type 0} (d : Discrete A) (a b : A) → same d a b ≡ true → a ≡ b
unfolding same
same-eq d a b h =
    elim (d a b) as (λ t. (elim t [ yes e ↦ true | no ne ↦ false ]) ≡ true → a ≡ b) [
      | yes e ↦ λ _. e
      | no ne ↦ λ bad. cc
    ]
      h

is_entry : Option InstRow → Op × InstType × ℕ → Bool
unfolding same Op-discrete InstType-discrete
is_entry none e = false
is_entry (some row) (op, type, width) =
    same Op-discrete row.op op
    && (same InstType-discrete row.operands.0 type && row.operands.1 == width)

-- A test that every smaller number passes.
holds_below : (ℕ → Bool) → ℕ → Bool
holds_below test zero = true
holds_below test (suc k) = holds_below test k && test k

holds_below-at : (test : ℕ → Bool) (k i : ℕ) → i < k → holds_below test k ≡ true → test i ≡ true
unfolding holds_below
holds_below-at test zero i lt h = absurd (omega arith)
holds_below-at test (suc k) i lt h = ground (arith, holds_below-at test k i)

opcodes : holds_below (λ x. is_entry (by_parts widths instpats x) (opcode_map x)) 256 ≡ true
unfolding holds_below by_parts parts part is_any value instpats opcode_map is_entry
opcodes = refl

is_entry-found :
    (o : Option InstRow) (e : Op × InstType × ℕ)
    → is_entry o e ≡ true
    → (row : InstRow) × (o ≡ some row) × ((row.op, row.operands.0, row.operands.1) ≡ e)
unfolding is_entry
is_entry-found none e h = cc
is_entry-found (some row) (op, type, width) h =
    let (a, b) = and-true _ _ h in
    let (c, d) = and-true _ _ b in
    let first = same-eq Op-discrete row.op op a in
    let second = same-eq InstType-discrete row.operands.0 type c in
    let third = (==_iff row.operands.1 width).0 d in (row, refl, λ i. (first i, second i, third i))

-- Every opcode selects a row of the table, whose body, type of operands and width are those of the
-- opcode map: in mov between register and memory the lowest bit chooses the width and the next one
-- the direction.
pub select-x86_map :
    (x : ℕ)
    → x < 256
    → (row : InstRow) × (select instpats x ≡ ok (some row))
      × ((row.op, row.operands.0, row.operands.1) ≡ opcode_map x)
select-x86_map x byte =
    let (row, e, found) = is_entry-found (by_parts widths instpats x) (opcode_map x) (
      holds_below-at (λ x. is_entry (by_parts widths instpats x) (opcode_map x)) 256 x byte
        opcodes) in
    (row, select-by_parts widths instpats x instpats_follow ∙ ap ok e, found)
