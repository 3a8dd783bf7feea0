-- ===== src/Tests/Memory.antt =====
-- Guest memory: a word written and read back, on a machine whose memory is all zero.
use rv32i.Base.{ℕ, ◌%◌, ◌^◌, ◌≡◌, refl, arith, inl, ok, fail, Fault, ◌⊎◌}
use rv32i.Machine.{Machine, RunState}
use rv32i.Memory.{host_len, paddr_read, paddr_write}
use rv32i.Memory.Access.{IsAccess}
use rv32i.Memory.Laws.{
  paddr_read-paddr_write, paddr_read-paddr_write_apart, paddr-IsAccess_cases, Refused,
}

abbrev blank : Machine
blank = record {
  gpr = λ _. 0;
  pc = 0x80000000;
  pmem = λ _. 0;
  nemu_state = record { state = RunState.stop; halt_pc = 0; halt_ret = 0 };
}

word-IsAccess : IsAccess 0x80000010 4
unfolding host_len
word-IsAccess = record { from = omega arith; to = omega arith; size = refl }

half-IsAccess : IsAccess 0x80000014 2
unfolding host_len
half-IsAccess = record { from = omega arith; to = omega arith; size = refl }

paddr_read-paddr_write_example :
    (m' : Machine) × (paddr_write 0x80000010 4 0x123456789 blank ≡ ok (tt, m'))
    × (paddr_read 0x80000010 4 m' ≡ ok (0x123456789 % 256 ^ 4, m'))
paddr_read-paddr_write_example = paddr_read-paddr_write word-IsAccess 0x123456789 blank

paddr_read-paddr_write_apart_example :
    (m' : Machine) × (v : ℕ) × (paddr_write 0x80000010 4 7 blank ≡ ok (tt, m'))
    × (paddr_read 0x80000014 2 blank ≡ ok (v, blank))
    × (paddr_read 0x80000014 2 m' ≡ ok (v, m'))
paddr_read-paddr_write_apart_example =
    paddr_read-paddr_write_apart word-IsAccess half-IsAccess 7 blank (inl (omega arith))

abbrev last_byte : ℕ
last_byte = 0x87ffffff

paddr-IsAccess_cases_example :
    IsAccess last_byte 4
    ⊎ ((f : Fault) × Refused last_byte 4 f
        × (paddr_read last_byte 4 blank ≡ fail f)
        × (paddr_write last_byte 4 0 blank ≡ fail f))
paddr-IsAccess_cases_example = paddr-IsAccess_cases last_byte 4 0 blank (omega arith)
