-- ===== src/Memory.antt =====
-- Guest memory: ysyx-workbench/nemu/include/memory/host.h, include/memory/paddr.h,
-- src/memory/paddr.c, src/memory/vaddr.c and include/cpu/ifetch.h, in the configuration of
-- include/generated/autoconf.h (no CONFIG_DEVICE, so that an address outside pmem is a panic).
pub mod Access
pub mod Laws
use rv32i.Base.{
  ℕ, zero, suc, ◌+◌, ◌-◌, ◌*◌, ◌/◌, ◌%◌, ◌^◌, Bool, true, false, ◌==◌, if◌then◌else◌, ltb, leb,
  Outcome, ok, fail, assertion, host_overrun, out_of_bound,
}
use rv32i.Word.{u32, add32, sub32}
use rv32i.Machine.{Machine, Command, pure, raise, ◌>>=◌, ◌>>◌, update}

abbrev pub mbase : ℕ
mbase = 0x80000000

abbrev pub msize : ℕ
msize = 0x8000000

abbrev pub reset_vector : ℕ
reset_vector = mbase + 0

unfoldable pub in_pmem : ℕ → Bool
unfolding sub32
in_pmem addr = ltb (sub32 addr mbase) msize

-- The offset in pmem of an address in it.
unfoldable pub guest_to_host : ℕ → ℕ
guest_to_host paddr = paddr - mbase

unfoldable pub host_to_guest : ℕ → ℕ
unfolding add32
host_to_guest offset = add32 offset mbase

-- The `len` bytes from an offset on, the lowest first.
unfoldable pub load_bytes : ℕ → (ℕ → ℕ) → ℕ → ℕ
load_bytes zero mem off = 0
load_bytes (suc len) mem off = mem off + 256 * load_bytes len mem (off + 1)

unfoldable pub store_bytes : ℕ → (ℕ → ℕ) → ℕ → ℕ → ℕ → ℕ
store_bytes zero mem off v = mem
store_bytes (suc len) mem off v = store_bytes len (update mem off (v % 256)) (off + 1) (v / 256)

-- The lengths that the switch of host_read and host_write has a case for.
unfoldable pub host_len : ℕ → Bool
host_len len = if len == 1 then true else if len == 2 then true else len == 4

-- An access that begins in pmem and runs past its end is outside the array.
unfoldable pub host_read : ℕ → ℕ → Command ℕ
unfolding host_len load_bytes
host_read off len m =
    if host_len len
    then (if leb (off + len) msize then ok (load_bytes len m.pmem off, m) else fail host_overrun)
    else fail assertion

unfoldable pub host_write : ℕ → ℕ → ℕ → Command (Unit {0})
unfolding host_len store_bytes
host_write off len word m =
    if host_len len
    then (if leb (off + len) msize
        then ok (tt, record m { pmem = store_bytes len m.pmem off word })
        else fail host_overrun)
    else fail assertion

unfoldable pub pmem_read : ℕ → ℕ → Command ℕ
unfolding host_read guest_to_host
pmem_read addr len = host_read (guest_to_host addr) len

unfoldable pub pmem_write : ℕ → ℕ → ℕ → Command (Unit {0})
unfolding host_write guest_to_host
pmem_write addr len word = host_write (guest_to_host addr) len word

unfoldable pub paddr_read : ℕ → ℕ → Command ℕ
unfolding in_pmem pmem_read
paddr_read addr len = if in_pmem addr then pmem_read addr len else raise (out_of_bound addr)

unfoldable pub paddr_write : ℕ → ℕ → ℕ → Command (Unit {0})
unfolding in_pmem pmem_write
paddr_write addr len word =
    if in_pmem addr then pmem_write addr len word else raise (out_of_bound addr)

unfoldable pub vaddr_ifetch : ℕ → ℕ → Command ℕ
unfolding paddr_read
vaddr_ifetch addr len = paddr_read addr len

unfoldable pub vaddr_read : ℕ → ℕ → Command ℕ
unfolding paddr_read
vaddr_read addr len = paddr_read addr len

unfoldable pub vaddr_write : ℕ → ℕ → ℕ → Command (Unit {0})
unfolding paddr_write
vaddr_write addr len word = paddr_write addr len word

-- The word at `pc`, and the advanced `pc`.
unfoldable pub inst_fetch : ℕ → ℕ → Command (ℕ × ℕ)
unfolding vaddr_ifetch add32
inst_fetch pc len = do inst ← vaddr_ifetch pc len; pure (inst, add32 pc len)
