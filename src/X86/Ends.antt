-- ===== src/X86/Ends.antt =====
-- The code of ysyx-workbench/nemu/src/isa/x86/inst.c, but for the label again, comes to a value or to a
-- fault of its own.
use rv32i.Base.{
  ℕ, ◌≡◌, refl, Bool, true, false, List, Option, none, some, if◌then◌else◌, Outcome, ok, fail,
  Fault, ◌≢◌, out_of_fuel, assertion, and_then, sym, subst,
}
use rv32i.Machine.{Machine}
use rv32i.Memory.{host_read, host_write}
use rv32i.Pattern.{select}
use rv32i.Pattern.Parts.{all_follow, select-by_parts}
use rv32i.X86.Select.{widths}
use rv32i.X86.State.{
  Cpu86, Decode, Run, x86_inst_fetch, mem_read, mem_write, reg_read, reg_write, check_reg_index,
  invalid_inst, set_nemu_state,
}
use rv32i.X86.Operand.{ModRm, load_sib, load_disp, add_reg, load_addr, decode_rm}
use rv32i.X86.Table.{InstType, Op, InstRow, esc_instpats}
use rv32i.X86.Exec.{
  Operands, decode_operand, execute, rm_read, rm_write, write_reg, two_byte_esc, esc_row, gp1,
}

-- The code comes to a value, or stops in a way of its own.
pub data Ends {A : Type 0} : Outcome A → Type 0 where
  returns : (a : A) → Ends (ok a)
  stops : (e : Fault) → e ≢ out_of_fuel → Ends (fail e)

pub and_then-Ends :
    {A B : Type 0} {o : Outcome A} {f : A → Outcome B}
    → Ends o
    → ((a : A) → Ends (f a))
    → Ends (and_then o f)
and_then-Ends (returns a) k = k a
and_then-Ends (stops e ne) k = stops e ne

pub and_then-Ends_eq :
    {A B : Type 0} {o : Outcome A} {f : A → Outcome B}
    → Ends o
    → ((a : A) → o ≡ ok a → Ends (f a))
    → Ends (and_then o f)
and_then-Ends_eq (returns a) k = k a refl
and_then-Ends_eq (stops e ne) k = stops e ne

if-Ends : {A : Type 0} (b : Bool) {x y : Outcome A} → Ends x → Ends y → Ends (if b then x else y)
if-Ends true h k = h
if-Ends false h k = k

if_run-Ends :
    {A : Type 0} (b : Bool) (x y : Run A) {c : Cpu86}
    → Ends (x c)
    → Ends (y c)
    → Ends ((if b then x else y) c)
if_run-Ends true x y h k = h
if_run-Ends false x y h k = k

assertion-Ends : {A : Type 0} → Ends {A = A} (fail assertion)
assertion-Ends = stops assertion (λ e. cc)

ruleset endings = (returns, and_then-Ends, if-Ends, if_run-Ends, assertion-Ends)

host_read-Ends : (addr len : ℕ) (m : Machine) → Ends (host_read addr len m)
unfolding host_read
host_read-Ends addr len m = if-Ends _ (if-Ends _ (returns _) (stops _ (λ e. cc))) assertion-Ends

host_write-Ends : (addr len v : ℕ) (m : Machine) → Ends (host_write addr len v m)
unfolding host_write
host_write-Ends addr len v m = if-Ends _ (if-Ends _ (returns _) (stops _ (λ e. cc))) assertion-Ends

mem_read-Ends : (addr len : ℕ) (c : Cpu86) → Ends (mem_read addr len c)
unfolding mem_read
mem_read-Ends addr len c =
    if-Ends _ (and_then-Ends (host_read-Ends addr len _) λ a. returns _) (stops _ (λ e. cc))

mem_write-Ends : (addr len v : ℕ) (c : Cpu86) → Ends (mem_write addr len v c)
unfolding mem_write
mem_write-Ends addr len v c =
    if-Ends _ (and_then-Ends (host_write-Ends addr len v _) λ a. returns _) (stops _ (λ e. cc))

reg_read-Ends : (idx w : ℕ) (c : Cpu86) → Ends (reg_read idx w c)
unfolding reg_read check_reg_index
reg_read-Ends idx w c = search endings

reg_write-Ends : (idx w v : ℕ) (c : Cpu86) → Ends (reg_write idx w v c)
unfolding reg_write check_reg_index
reg_write-Ends idx w v c = search endings

pub x86_inst_fetch-Ends : (s : Decode) (len : ℕ) (c : Cpu86) → Ends (x86_inst_fetch s len c)
unfolding x86_inst_fetch
x86_inst_fetch-Ends s len c = search (endings, mem_read-Ends)

load_sib-Ends : (s : Decode) (m : ModRm) (c : Cpu86) → Ends (load_sib s m c)
unfolding load_sib
load_sib-Ends s m c = search (endings, x86_inst_fetch-Ends)

load_disp-Ends : (s : Decode) (n : ℕ) (c : Cpu86) → Ends (load_disp s n c)
unfolding load_disp
load_disp-Ends s n c = search (endings, x86_inst_fetch-Ends)

add_reg-Ends : (addr : ℕ) (r : Option ℕ) (scale : ℕ) (c : Cpu86) → Ends (add_reg addr r scale c)
unfolding add_reg
add_reg-Ends addr none scale c = returns _
add_reg-Ends addr (some r) scale c = search (endings, reg_read-Ends)

load_addr-Ends : (s : Decode) (m : ModRm) (c : Cpu86) → Ends (load_addr s m c)
unfolding load_addr
load_addr-Ends s m c = search (endings, load_sib-Ends, load_disp-Ends, add_reg-Ends) depth 12

decode_rm-Ends : (s : Decode) (c : Cpu86) → Ends (decode_rm s c)
unfolding decode_rm
decode_rm-Ends s c = search (endings, x86_inst_fetch-Ends, load_addr-Ends)

ruleset decoding = (endings, x86_inst_fetch-Ends, decode_rm-Ends, reg_read-Ends)

pub decode_operand-Ends :
    (s : Decode) (opcode w : ℕ) (t : InstType) (c : Cpu86) → Ends (decode_operand s opcode w t c)
unfolding decode_operand
decode_operand-Ends s opcode w InstType.n c = search decoding
decode_operand-Ends s opcode w InstType.i2r c = search decoding
decode_operand-Ends s opcode w InstType.g2e c = search decoding
decode_operand-Ends s opcode w InstType.e2g c = search decoding
decode_operand-Ends s opcode w InstType.i2e c = search decoding
decode_operand-Ends s opcode w InstType.o2a c = search decoding
decode_operand-Ends s opcode w InstType.a2o c = search decoding
decode_operand-Ends s opcode w _ c = assertion-Ends

invalid_inst-Ends : (pc : ℕ) (c : Cpu86) → Ends (invalid_inst pc c)
unfolding invalid_inst set_nemu_state
invalid_inst-Ends pc c = search (endings, mem_read-Ends)

write_reg-Ends : (r : Option ℕ) (w v : ℕ) (c : Cpu86) → Ends (write_reg r w v c)
unfolding write_reg
write_reg-Ends none w v c = assertion-Ends
write_reg-Ends (some r) w v c = reg_write-Ends r w v c

rm_read-Ends : (r : Option ℕ) (addr w : ℕ) (c : Cpu86) → Ends (rm_read r addr w c)
unfolding rm_read
rm_read-Ends none addr w c = mem_read-Ends addr w c
rm_read-Ends (some r) addr w c = reg_read-Ends r w c

rm_write-Ends : (r : Option ℕ) (addr w v : ℕ) (c : Cpu86) → Ends (rm_write r addr w v c)
unfolding rm_write
rm_write-Ends none addr w v c = mem_write-Ends addr w v c
rm_write-Ends (some r) addr w v c = reg_write-Ends r w v c

select-Ends : (rows : List InstRow) (x : ℕ) → all_follow widths rows ≡ true → Ends (select rows x)
select-Ends rows x follow = subst Ends (sym (select-by_parts widths rows x follow)) (returns _)

esc_row-Ends : (row : Option InstRow) (s : Decode) (c : Cpu86) → Ends (esc_row row s c)
unfolding esc_row
esc_row-Ends none s c = returns _
esc_row-Ends (some row) s c = search (endings, invalid_inst-Ends)

esc_follow : all_follow widths esc_instpats ≡ true
unfolding all_follow esc_instpats
esc_follow = refl

two_byte_esc-Ends : (s : Decode) (c : Cpu86) → Ends (two_byte_esc s c)
unfolding two_byte_esc
two_byte_esc-Ends s c =
    and_then-Ends (x86_inst_fetch-Ends s 1 c) λ a.
      and_then-Ends (select-Ends esc_instpats a.0.0 esc_follow) λ row. esc_row-Ends row a.0.1 a.1

ruleset bodies = (
  endings, two_byte_esc-Ends, invalid_inst-Ends, rm_read-Ends, rm_write-Ends, write_reg-Ends,
  reg_read-Ends, reg_write-Ends, mem_read-Ends, mem_write-Ends,
)

pub execute-Ends :
    (op : Op) (s : Decode) (o : Operands) (w : ℕ) (c : Cpu86) → Ends (execute op s o w c)
unfolding execute gp1 set_nemu_state
execute-Ends Op.two_byte_esc s o w c = search bodies
execute-Ends Op.data_size s o w c = search bodies
execute-Ends Op.gp1 s o w c = search bodies
execute-Ends Op.mov_to_rm s o w c = search bodies
execute-Ends Op.mov_from_rm s o w c = search bodies
execute-Ends Op.load_a s o w c = search bodies
execute-Ends Op.store_a s o w c = search bodies
execute-Ends Op.mov_imm s o w c = search bodies
execute-Ends Op.mov_imm_to_rm s o w c = search bodies
execute-Ends Op.nemu_trap s o w c = search bodies
execute-Ends Op.inv s o w c = search bodies

pub Ends-fuel : {A : Type 0} {o : Outcome A} → Ends o → o ≢ fail out_of_fuel
Ends-fuel (returns a) = λ e. cc
Ends-fuel (stops f ne) = λ e. ne (cc)
