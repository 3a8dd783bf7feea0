-- ===== src/Memory/Laws.antt =====
-- The laws of guest memory: a read returns what was written, what other accesses see, and the
-- outcome of an access that is not inside pmem.
use native.Mathlib.Nat.{pow-succ'}
use rv32i.Base.{
  ℕ, zero, suc, ◌+◌, ◌-◌, ◌/◌, ◌%◌, ◌^◌, ◌≤◌, ◌<◌, ◌≡◌, ◌⊎◌, arith, true, false, ok, fail,
  assertion, host_overrun, out_of_bound, ap, Fault, Bool-cases, inl, inr, ltb,
}
use rv32i.Word.{sub32, u32}
use rv32i.Machine.{Machine, update}
use rv32i.Memory.{
  mbase, msize, in_pmem, guest_to_host, load_bytes, store_bytes, host_len, host_read, host_write,
  pmem_read, pmem_write, paddr_read, paddr_write,
}
use rv32i.Memory.Access.{
  IsAccess, store_bytes-other, load_bytes-congr, load-store_bytes, paddr_read-load_bytes,
  paddr_write-store_bytes,
}

-- A read of the range that was just written returns the value written, cut to the length of the
-- access, and changes nothing.
pub paddr_read-paddr_write :
    {addr len : ℕ} (a : IsAccess addr len) (w : ℕ) (m : Machine)
    → (m' : Machine) × (paddr_write addr len w m ≡ ok (tt, m'))
      × (paddr_read addr len m' ≡ ok (w % 256 ^ len, m'))
paddr_read-paddr_write {addr} {len} a w m =
    let m' : Machine = record m { pmem = store_bytes len m.pmem (guest_to_host addr) w } in
    (
      m',
      paddr_write-store_bytes a m w,
      rw (paddr_read-load_bytes a m')
          (ap (λ v. ok (v, m')) (load-store_bytes len m.pmem (guest_to_host addr) w)),
    )

-- Two ranges that share no address.
abbrev pub AreApart : (addr len addr' len' : ℕ) → Type 0
AreApart addr len addr' len' = (addr + len ≤ addr') ⊎ (addr' + len' ≤ addr)

-- A write does not change what is read from a range apart from it.
pub paddr_read-paddr_write_apart :
    {addr len addr' len' : ℕ} (a : IsAccess addr len) (b : IsAccess addr' len') (w : ℕ)
    (m : Machine)
    → AreApart addr len addr' len'
    → (m' : Machine) × (v : ℕ) × (paddr_write addr len w m ≡ ok (tt, m'))
      × (paddr_read addr' len' m ≡ ok (v, m))
      × (paddr_read addr' len' m' ≡ ok (v, m'))
unfolding guest_to_host
paddr_read-paddr_write_apart {addr} {len} {addr'} {len'} a b w m apart =
    let m' : Machine = record m { pmem = store_bytes len m.pmem (guest_to_host addr) w } in
    (
      m',
      load_bytes len' m.pmem (guest_to_host addr'),
      paddr_write-store_bytes a m w,
      paddr_read-load_bytes b m,
      rw (paddr_read-load_bytes b m') (
          ap (λ v. ok (v, m'))
            (load_bytes-congr len' m'.pmem m.pmem (guest_to_host addr')
              λ x p q. store_bytes-other len m.pmem (guest_to_host addr) w x (away x p q))),
    )
  where
    away :
        (x : ℕ)
        → addr' - mbase ≤ x
        → x < addr' - mbase + len'
        → (x < addr - mbase) ⊎ (addr - mbase + len ≤ x)
    away x p q = grind (arith, a.from, b.from)

-- Why an access is refused, and with which fault.
pub data Refused (addr len : ℕ) : Fault → Type 0 where
  outside : (addr < mbase) ⊎ (mbase + msize ≤ addr) → Refused addr len (out_of_bound addr)
  bad_length :
      mbase ≤ addr → addr < mbase + msize → host_len len ≡ false → Refused addr len assertion
  past_end :
      mbase ≤ addr
      → addr < mbase + msize
      → host_len len ≡ true
      → mbase + msize < addr + len
      → Refused addr len host_overrun

-- Every access at a 32-bit address is either one of 1, 2 or 4 bytes within guest memory, or read and
-- write fail alike: with the panic of out_of_bound for an address outside, with an assertion for
-- another length, and with an access beyond the array where the range runs past the end.
pub paddr-IsAccess_cases :
    (addr len w : ℕ) (m : Machine)
    → addr < u32
    → IsAccess addr len
      ⊎ ((f : Fault) × Refused addr len f
          × (paddr_read addr len m ≡ fail f)
          × (paddr_write addr len w m ≡ fail f))
unfolding paddr_read paddr_write in_pmem pmem_read pmem_write host_read host_write guest_to_host
    sub32
paddr-IsAccess_cases addr len w m small = elim (Bool-cases (ltb addr mbase)) [
  | inl below ↦ inr (_, outside (inl (ground arith)), ground arith, ground arith)
  | inr from ↦ elim (Bool-cases (ltb addr (mbase + msize))) [
    | inr above ↦ inr (_, outside (inr (ground arith)), ground arith, ground arith)
    | inl to ↦ elim (Bool-cases (host_len len)) [
      | inr bad ↦ inr (
        _,
        bad_length (ground arith) (ground arith) bad,
        ground (arith, bad),
        ground (arith, bad),
      )
      | inl good ↦ elim (Bool-cases (ltb (mbase + msize) (addr + len))) [
        | inl past ↦ inr (
          _,
          past_end (ground arith) (ground arith) good (ground arith),
          ground (arith, good),
          ground (arith, good),
        )
        | inr fits ↦ inl (record { from = ground arith; to = ground arith; size = good })
      ]
    ]
  ]
]

-- Every cell of pmem is a byte.
abbrev pub AreBytes : Machine → Type 0
AreBytes m = (a : ℕ) → m.pmem a < 256

pub store_bytes-AreBytes :
    (len : ℕ) (mem : ℕ → ℕ) (off v : ℕ)
    → ((a : ℕ) → mem a < 256)
    → (a : ℕ) → store_bytes len mem off v a < 256
unfolding store_bytes
store_bytes-AreBytes zero mem off v h = h
store_bytes-AreBytes (suc len) mem off v h =
    store_bytes-AreBytes len (update mem off (v % 256)) (off + 1) (v / 256) λ a. ground (arith, h a)

load_bytes-lt :
    (len : ℕ) (mem : ℕ → ℕ) (off : ℕ) → ((a : ℕ) → mem a < 256) → load_bytes len mem off < 256 ^ len
unfolding load_bytes
load_bytes-lt zero mem off h = omega arith
load_bytes-lt (suc len) mem off h =
    omega (arith, h off, load_bytes-lt len mem (off + 1) h, pow-succ' 256 len)

-- A successful write keeps the cells bytes, and changes nothing but pmem.
pub paddr_write-AreBytes :
    (addr len w : ℕ) (m : Machine) {m' : Machine}
    → AreBytes m
    → paddr_write addr len w m ≡ ok (tt, m')
    → AreBytes m' × (m' ≡ record m { pmem = m'.pmem })
unfolding paddr_write pmem_write host_write
paddr_write-AreBytes addr len w m {m'} h e =
    ground (arith, store_bytes-AreBytes len m.pmem (guest_to_host addr) w h)

-- A successful read returns a value of its length, and leaves the machine alone.
pub paddr_read-lt :
    (addr len : ℕ) (m : Machine) {v : ℕ} {m' : Machine}
    → AreBytes m
    → paddr_read addr len m ≡ ok (v, m')
    → (v < 256 ^ len) × (m' ≡ m)
unfolding paddr_read pmem_read host_read
paddr_read-lt addr len m h e = ground (arith, load_bytes-lt len m.pmem (guest_to_host addr) h)
