-- ===== src/Tests/X86.antt =====
-- The x86 guest on a machine whose registers and memory are cleared, and on a few bytes of code.
use rv32i.Base.{
  ℕ, ◌<◌, ◌+◌, ◌*◌, ◌-◌, ◌≡◌, ◌≢◌, refl, arith, suc, ok, fail, assertion, out_of_fuel, some,
  if◌then◌else◌, ◌==◌,
}
use rv32i.Machine.{running, end}
use rv32i.Memory.{load_bytes}
use rv32i.Pattern.{select}
use rv32i.X86.State.{Cpu86, Decode}
use rv32i.X86.Operand.{modrm, load_addr}
use rv32i.X86.Table as Table
use rv32i.X86.Select as Select
use rv32i.X86.Exec.{isa_exec_once}
use rv32i.X86.Effective.{effective, tail_size}
use rv32i.X86.Address.{load_addr-effective}
use rv32i.X86.Init.{reg_test, run}
use rv32i.X86.BuiltIn.{started, x86_image-trap}
use rv32i.X86.Prefixes.{isa_exec_once-ends}
use rv32i.X86.RegTest.{reg_test-fails}

abbrev cleared : Cpu86
cleared = record {
  gpr = λ i. record { long = 0; word = 0; bytes = λ j. 0 };
  named = λ i. 0;
  pc = 0x100000;
  pmem = λ a. 0;
  nemu_state = record { state = running; halt_pc = 0; halt_ret = 0 };
}

abbrev fresh : Decode
fresh = record { pc = 0x100000; snpc = 0x100000; dnpc = 0; inst = λ i. 0 }

-- A SIB byte with %ecx as base and %ebx * 4, and a displacement of -2, behind the ModR/M byte 0x44.
abbrev coded : Cpu86
coded = record cleared {
  gpr = λ i. record { long = 16 * i; word = 0; bytes = λ j. 0 };
  pmem = λ a. if a == 0x100002 then 0x99 else if a == 0x100003 then 0xfe else 0;
}

abbrev behind : Decode
behind = record fresh { snpc = 0x100002 }

bytes_of_coded : (j : ℕ) → coded.pmem j < 256
bytes_of_coded j = ground arith

address : effective coded (modrm 0x44) 0x100002 ≡ 16 + 48 * 4 + 0 - 2
unfolding effective
address = refl

load_addr-effective_example :
    (s' : Decode) × (load_addr behind (modrm 0x44) coded
      ≡ ok ((effective coded (modrm 0x44) 0x100002, s'), coded))
    × (s'.snpc ≡ 0x100002 + tail_size coded (modrm 0x44) 0x100002)
    × (s'.pc ≡ 0x100000)
unfolding tail_size
load_addr-effective_example =
    load_addr-effective behind (modrm 0x44) coded (omega arith) (omega arith) bytes_of_coded
      (omega arith) (omega arith) (omega arith)

select-x86_map_example :
    (row : Table.InstRow) × (select Table.instpats 0x8b ≡ ok (some row))
    × ((row.op, row.operands.0, row.operands.1) ≡ Select.opcode_map 0x8b)
select-x86_map_example = Select.select-x86_map 0x8b (omega arith)

x86_image-trap_example :
    (c' : Cpu86) × (run (suc (suc (suc (suc (suc (suc (suc (suc 92)))))))) (started cleared)
      ≡ ok c')
    × (c'.nemu_state ≡ record { state = end; halt_pc = 0x100026; halt_ret = 0 })
    × ((c'.gpr 0).long ≡ 0)
    × (load_bytes 4 c'.pmem 0x100027 ≡ 0x1234)
    × (load_bytes 2 c'.pmem 0x10002b ≡ 1)
    × (load_bytes 2 c'.pmem 0xfe02f ≡ 1)
x86_image-trap_example = x86_image-trap 92 cleared

-- Memory full of operand size prefixes.
abbrev prefixes : Cpu86
prefixes = record cleared { pmem = λ a. 0x66 }

isa_exec_once-ends_example : isa_exec_once fresh prefixes ≢ fail out_of_fuel
isa_exec_once-ends_example = isa_exec_once-ends fresh prefixes (omega arith) refl

reg_test-fails_example : reg_test (λ k. k) cleared ≡ fail assertion
reg_test-fails_example = reg_test-fails (λ k. k) 3 cleared (omega arith) (omega arith)
